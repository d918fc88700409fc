-- ===== src/Amass/Tests.antt =====
-- Three awaitables, of which at most two are pending at once.
use aiodrive.Prelude.{
  length, count, ℕ, ◌+◌, ◌≤◌, ◌≡◌, refl, true, false, Option, some, List, [], ◌∷◌, arith,
}
use aiodrive.Asyncio.{cancelled_error, returned, raised, task_done, complete_task}
use aiodrive.Gather.{exceptions, results, verdict}
use aiodrive.Amass.{
  exhausted, closed, ended, Amass, clean_up, next_round, look, wake, gathered, complete, amass,
}
use aiodrive.Amass.Schedule.{begins, completes, wakes, resumes, ends, Reach, here, next}
use aiodrive.Amass.Yields.{keys, IsYield, IsMissed}
use aiodrive.Amass.Bounded.{Reach-bounded}
use aiodrive.Amass.Laws.{exhausted_complete, out-IsYield, ended_clean, gathered-cancelled}

abbrev two : Option ℕ
two = some 2

abbrev three : List ℕ
three = 0 ∷ 1 ∷ 2 ∷ []

three_distinct : (k : ℕ) → count k three ≤ 1
three_distinct k = ground arith

abbrev opened : Amass ℕ
opened = next_round two (amass three)

-- The second one returns first, then the others.
abbrev first_round : Amass ℕ
first_round = look two true [] (wake two true (1 ∷ []) (0 ∷ []) (complete 1 (returned 7) opened))

abbrev second_round : Amass ℕ
second_round =
    wake two true (2 ∷ 0 ∷ []) [] (complete 0 (returned 5) (complete 2 (returned 9) first_round))

abbrev last_round : Amass ℕ
last_round = look two true [] (look two true (0 ∷ []) second_round)

opened-Reach : Reach two true three opened
opened-Reach = next here (begins refl)

first_round-Reach : Reach two true three first_round
unfolding look next_round wake complete complete_task
first_round-Reach =
    let a = next opened-Reach (completes 1 (returned 7)) in
    let b = next a (wakes (1 ∷ []) (0 ∷ []) refl (λ k. omega arith) refl (refl, tt)) in
    next b (resumes [] refl)

last_round-Reach : Reach two true three last_round
unfolding look next_round wake complete complete_task
last_round-Reach =
    let a = next first_round-Reach (completes 2 (returned 9)) in
    let b = next a (completes 0 (returned 5)) in
    let c = next b (wakes (2 ∷ 0 ∷ []) [] refl (λ k. omega arith) refl (refl, (refl, tt))) in
    let d = next c (resumes (0 ∷ []) refl) in next d (resumes [] refl)

Reach-bounded_test : length first_round.pending_futures ≤ 2
Reach-bounded_test = Reach-bounded 2 true three first_round-Reach

exhausted_complete_example :
    ((k : ℕ) → count k (keys last_round.out) + count k last_round.missed ≡ count k three)
    × IsYield last_round.futures last_round.out
    × IsMissed last_round.futures last_round.missed
    × (true ≡ true → last_round.missed ≡ [])
unfolding look next_round wake complete complete_task
exhausted_complete_example =
    exhausted_complete three three_distinct two true refl last_round-Reach refl

out-IsYield_test : IsYield last_round.futures last_round.out
out-IsYield_test = out-IsYield three three_distinct two true refl last_round-Reach

abbrev over : Amass ℕ
over = gathered exhausted false last_round

over-Reach : Reach two true three over
unfolding look next_round wake complete complete_task
over-Reach = next last_round-Reach (ends exhausted false refl refl)

ended_clean_example : task_done (over.futures 2) ≡ true
unfolding gathered look next_round wake complete complete_task verdict exceptions results
ended_clean_example =
    ended_clean three three_distinct two true exhausted (returned tt) 2 refl over-Reach refl
      (omega arith)

-- The iterator is closed while the first awaitable is pending, and it obeys the cancellation.
abbrev cut : Amass ℕ
cut =
    complete 2 (raised cancelled_error)
      (complete 0 (raised cancelled_error) (clean_up closed first_round))

gathered-cancelled_test : (gathered closed false cut).phase ≡ ended closed (raised cancelled_error)
unfolding look next_round wake complete complete_task exceptions
gathered-cancelled_test = gathered-cancelled three three_distinct closed false cut refl refl
