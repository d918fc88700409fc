-- ===== src/Gather/Tests.antt =====
-- Runs of `gather`.
use aiodrive.Prelude.{ltb, all, ℕ, ◌+◌, ◌≡◌, refl, ◌↔◌, true, false, List, [], ◌∷◌}
use aiodrive.Asyncio.{
  cancelled_error, group, other, end, more, returned, raised, Future, Task, task_done,
}
use aiodrive.Gather.{all_completed, exceptions, results, verdict, start, wake, interrupt, complete}
use aiodrive.Gather.Verdict.{outcomes, finished_all, verdict-returned}
use aiodrive.Gather.Schedule.{
  Event, completes, interrupts, wakes, flag, step, run, interruptions, Requested,
}
use aiodrive.Gather.Runs.{run-done, run-Requested, wake_fails_fast}

abbrev fresh : Task ℕ
fresh = record { future = Future.pending; requests = 0 }

abbrev value_task : ℕ → Task ℕ
value_task n = record { future = Future.finished n; requests = 0 }

verdict-returned_test :
    (verdict false (value_task 1 ∷ value_task 2 ∷ []) ≡ returned (1 ∷ 2 ∷ []))
    ↔ ((false ≡ false) × (outcomes (value_task 1 ∷ value_task 2 ∷ []) ≡ finished_all (1 ∷ 2 ∷ [])))
verdict-returned_test = verdict-returned false (value_task 1 ∷ value_task 2 ∷ []) (1 ∷ 2 ∷ []) refl

abbrev failing_run : List (Event ℕ)
failing_run =
    completes 1 (raised (other 5)) ∷ wakes ∷ completes 0 (raised cancelled_error) ∷ wakes ∷ []

run-done_example :
    (all task_done (run failing_run (start true (fresh ∷ fresh ∷ []))).tasks ≡ true)
    × (raised (group (more (other 5) end))
        ≡ verdict
            (ltb 0 (interruptions failing_run (start true (fresh ∷ fresh ∷ []))))
            (run failing_run (start true (fresh ∷ fresh ∷ []))).tasks)
unfolding run step start wake interrupt complete verdict exceptions results
run-done_example = run-done true (fresh ∷ fresh ∷ []) failing_run (refl, (refl, tt)) refl

abbrev cut_run : List (Event ℕ)
cut_run = completes 1 (raised (other 5)) ∷ wakes ∷ interrupts ∷ []

run-Requested_example :
    Requested
      (interruptions cut_run (start true (fresh ∷ fresh ∷ []))
        + flag (run cut_run (start true (fresh ∷ fresh ∷ []))).failed)
      (run cut_run (start true (fresh ∷ fresh ∷ []))).tasks
unfolding run step start wake interrupt complete
run-Requested_example = run-Requested true (fresh ∷ fresh ∷ []) cut_run (refl, (refl, tt)) refl

wake_fails_fast_test :
    let g = wake (run (completes 1 (raised (other 5)) ∷ []) (start true (fresh ∷ fresh ∷ []))) in
    (g.phase ≡ all_completed) × (g.failed ≡ true) × Requested 1 g.tasks
unfolding run step start complete
wake_fails_fast_test =
    wake_fails_fast (fresh ∷ fresh ∷ []) (completes 1 (raised (other 5)) ∷ []) (refl, (refl, tt))
      refl refl
