-- ===== src/Race/Tests.antt =====
-- Runs of `race`.
use aiodrive.Gather
use aiodrive.Prelude.{ℕ, ◌≡◌, refl, false, List, [], ◌∷◌, map}
use aiodrive.Asyncio.{Exn, cancelled_error, returned, raised, Future, Task, request, complete_task}
use aiodrive.Gather.{done, Gather, exceptions, results, verdict, complete_at}
use aiodrive.Gather.Schedule.{Event, completes, wakes, run, is_over}
use aiodrive.Race.{draining, over, Race, start, pending_tasks, wake, complete}
use aiodrive.Race.Laws.{moves, moves-wake}

abbrev fresh : Task ℕ
fresh = record { future = Future.pending; requests = 0 }

-- The task at 1 finishes with 7, and the one at 0 obeys the request to stop.
abbrev obedient_run : Race ℕ
obedient_run =
    complete 0 (raised cancelled_error)
      (wake 1 (complete 1 (returned 7) (start (fresh ∷ fresh ∷ []))))

-- `race` does not return `(1, 7)`.
obedient_run_raises : (wake 0 obedient_run).stage ≡ over (raised cancelled_error)
unfolding wake complete start Gather.start Gather.wake Gather.complete complete_at complete_task
    pending_tasks verdict exceptions results
obedient_run_raises = refl

abbrev first_won : List (Event ℕ)
first_won = completes 1 (returned 7) ∷ []

abbrev second_stops : List (Event ℕ)
second_stops = completes 0 (returned 8) ∷ wakes ∷ []

abbrev winner : Task ℕ
winner = record { future = Future.finished 7; requests = 0 }

moves-wake_example :
    let r = moves first_won (start (fresh ∷ fresh ∷ [])) in
    let g = run second_stops (Gather.start false (map request (pending_tasks r.tasks))) in
    let s = (moves second_stops (wake 1 r)).stage in
    (is_over g.phase ≡ false → s ≡ draining 1 (returned 7) g)
    × ((e : Exn) → g.phase ≡ done (raised e) → s ≡ over (raised e))
    × ((vs : List ℕ) (a : ℕ)
        → g.phase ≡ done (returned vs)
        → winner.future ≡ Future.finished a
        → s ≡ over (returned (1, a)))
    × ((vs : List ℕ) (e : Exn)
        → g.phase ≡ done (returned vs)
        → winner.future ≡ Future.failed e
        → s ≡ over (raised e))
unfolding moves complete start complete_at complete_task
moves-wake_example = moves-wake first_won second_stops (fresh ∷ fresh ∷ []) 1 winner refl refl refl
