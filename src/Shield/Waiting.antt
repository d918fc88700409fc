-- ===== src/Shield/Waiting.antt =====
-- How far the loops of src/aiodrive/modules/shield.py protect the awaited task.
use aiodrive.Prelude.{
  ltb, ◌==◌, if◌then◌else◌, replicate, ℕ, zero, suc, ◌+◌, ◌-◌, ◌<◌, ◌≡◌, refl, ap, ◌∙◌, ◌≢◌, Bool,
  true, false, ◌&&◌, ◌||◌, some, List, [], ◌∷◌, ◌++◌, arith,
}
use aiodrive.Asyncio.{
  cancelled_error, Outcome, returned, raised, Future, settle, Task, complete_task,
}
use aiodrive.Shield.{
  Event, cancels, ends, resumed, Run, completed, spinning, await_shielded, await_pending,
  await_task, finish, shield_loop, shield_wait, forever_loop, shield_wait_forever, context_shield,
  after_callback, cleaned_up,
}

module _ {A : Type 0} where
  -- `k` cancellations, and then the task ends.
  abbrev pub after_cancels : ℕ → Outcome A → List (Event A) → List (Event A)
  after_cancels k o es = replicate k cancels ++ ends o ∷ es

  abbrev pub pending_task : ℕ → Task A
  pending_task r = record { future = Future.pending; requests = r }

  abbrev pub ended_task : ℕ → Outcome A → Task A
  ended_task r o = record { future = settle o; requests = r }

  -- A value is replaced by `CancelledError`, and an exception is passed on.
  abbrev pub unless : Bool → Outcome A → Outcome A
  unless flag (returned a) = if flag then raised cancelled_error else returned a
  unless flag (raised e) = raised e

  finished_eq :
      (flag : Bool) (o : Outcome A) (r : ℕ) (es : List (Event A))
      → finish flag (resumed o (ended_task r o) es) ≡ completed (unless flag o) (ended_task r o)
  finished_eq flag o r es = ground arith

  pub await_pending-after_cancels :
      (k r : ℕ) (o : Outcome A) (es : List (Event A))
      → await_pending (pending_task r) (after_cancels k o es) ≡ resumed o (ended_task (r + k) o) es
  unfolding await_pending complete_task
  await_pending-after_cancels zero r o es = ap (λ n. resumed o (ended_task n o) es) (omega arith)
  await_pending-after_cancels (suc k) r o es =
      await_pending-after_cancels k (r + 1) o es
      ∙ ap (λ n. resumed o (ended_task n o) es) (omega arith)

  -- A task that was cancelled makes every round of the loop raise.
  shield_loop_cancelled :
      (n r : ℕ) (es : List (Event A))
      → shield_loop n true (ended_task r (raised cancelled_error)) es
        ≡ completed (raised cancelled_error) (ended_task r (raised cancelled_error))
  unfolding shield_loop await_task await_shielded
  shield_loop_cancelled zero r es = refl
  shield_loop_cancelled (suc n) r es = shield_loop_cancelled n r es

  -- The task ends in the first round.
  first_round :
      (n r : ℕ) (flag : Bool) (o : Outcome A) (es : List (Event A))
      → shield_loop (suc n) flag (pending_task r) (ends o ∷ es)
        ≡ completed (unless flag o) (ended_task r o)
  unfolding shield_loop await_shielded complete_task
  first_round n r flag o es = ground (arith, shield_loop_cancelled n r es)

  completed_eq :
      (o : Outcome A) {b c : Bool} {m n : ℕ}
      → b ≡ c
      → m ≡ n
      → ◌≡◌ {A = Run A}
          (completed (unless b o) (ended_task m o))
          (completed (unless c o) (ended_task n o))
  completed_eq o p q = λ i. completed (unless (p i) o) (ended_task (q i) o)

  shield_loop-after_cancels :
      (n k r : ℕ) (flag : Bool) (o : Outcome A) (es : List (Event A))
      → shield_loop n flag (pending_task r) (after_cancels k o es)
        ≡ completed (unless (flag || (ltb 0 k && ltb 0 n)) o) (ended_task (r + (k - n)) o)
  unfolding shield_loop await_task await_shielded
  shield_loop-after_cancels zero k r flag o es =
      ap (finish flag) (await_pending-after_cancels k r o es)
      ∙ finished_eq flag o (r + k) es
      ∙ completed_eq o (ground arith) (omega arith)
  shield_loop-after_cancels (suc n) zero r flag o es =
      first_round n r flag o es ∙ completed_eq o (ground arith) (omega arith)
  shield_loop-after_cancels (suc n) (suc k) r flag o es =
      shield_loop-after_cancels n k r true o es
      ∙ completed_eq o {b = true} {m = r + (k - n)} (ground arith) (omega arith)

  -- When the awaiting task is cancelled `k` times before the awaited task ends as `o`, exactly the
  -- cancellations after the first `shield_count` reach the awaited task. `shield_wait` completes as
  -- `o`, but for a value that comes after a shielded cancellation it raises `CancelledError`.
  pub shield_wait-after_cancels :
      (shield_count k r : ℕ) (o : Outcome A) (es : List (Event A))
      → shield_wait shield_count (pending_task r) (after_cancels k o es)
        ≡ completed
            (unless (ltb 0 k && ltb 0 shield_count) o)
            (ended_task (r + (k - shield_count)) o)
  unfolding shield_wait
  shield_wait-after_cancels zero k r o es = shield_loop-after_cancels 0 k r false o es
  shield_wait-after_cancels (suc n) k r o es =
      ground (arith, shield_loop-after_cancels (suc n) k r false o es)

  forever_loop-after_cancels :
      (fuel k r : ℕ) (flag : Bool) (o : Outcome A) (es : List (Event A))
      → k < fuel
      → o ≢ raised cancelled_error
      → forever_loop fuel flag (pending_task r) (after_cancels k o es)
        ≡ completed (unless (flag || ltb 0 k) o) (ended_task r o)
  unfolding forever_loop await_shielded complete_task
  forever_loop-after_cancels zero k r flag o es lt h = absurd (omega arith)
  forever_loop-after_cancels (suc fuel) zero r flag o es lt h = ground arith
  forever_loop-after_cancels (suc fuel) (suc k) r flag o es lt h =
      forever_loop-after_cancels fuel k r true o es (omega arith) h
      ∙ completed_eq o {b = true} (ground arith) refl

  -- With fuel for one round more than the `k` cancellations, if the awaited task does not end as
  -- cancelled: `shield_wait_forever` completes once the task has ended, no cancellation reaches the
  -- task, and a value that comes after a cancellation is replaced by `CancelledError`.
  pub shield_wait_forever-after_cancels :
      (fuel k r : ℕ) (o : Outcome A) (es : List (Event A))
      → k < fuel
      → o ≢ raised cancelled_error
      → shield_wait_forever fuel (pending_task r) (after_cancels k o es)
        ≡ completed (unless (ltb 0 k) o) (ended_task r o)
  unfolding shield_wait_forever
  shield_wait_forever-after_cancels fuel k r o es lt h =
      forever_loop-after_cancels fuel k r false o es lt h

  forever_loop_cancelled :
      (fuel r : ℕ) (flag : Bool) (es : List (Event A))
      → forever_loop fuel flag (ended_task r (raised cancelled_error)) es ≡ spinning
  unfolding forever_loop await_shielded
  forever_loop_cancelled zero r flag es = refl
  forever_loop_cancelled (suc fuel) r flag es = forever_loop_cancelled fuel r true es

  forever_loop_stuck :
      (fuel k r : ℕ) (flag : Bool) (es : List (Event A))
      → forever_loop fuel flag (pending_task r) (after_cancels k (raised cancelled_error) es)
        ≡ spinning
  unfolding forever_loop await_shielded complete_task
  forever_loop_stuck zero k r flag es = refl
  forever_loop_stuck (suc fuel) zero r flag es = forever_loop_cancelled fuel r true es
  forever_loop_stuck (suc fuel) (suc k) r flag es = forever_loop_stuck fuel k r true es

  -- If the awaited task ends as cancelled, then however many rounds the loop is given,
  -- `shield_wait_forever` does not complete: each round awaits a future that is done, so the loop
  -- never lets another task run.
  pub shield_wait_forever_stuck :
      (fuel k r : ℕ) (es : List (Event A))
      → shield_wait_forever fuel (pending_task r) (after_cancels k (raised cancelled_error) es)
        ≡ spinning
  unfolding shield_wait_forever
  shield_wait_forever_stuck fuel k r es = forever_loop_stuck fuel k r false es

context_shield-after_cancels :
    (initial k : ℕ) (o : Outcome (Unit {0}))
    → context_shield initial 1 (pending_task 0) (after_cancels k o [])
      ≡ completed (unless (ltb 0 k && initial == 0) o) (ended_task (k - (1 - initial)) o)
unfolding context_shield
context_shield-after_cancels initial k o =
    shield_wait-after_cancels (1 - initial) k 0 o [] ∙ completed_eq o (ground arith) (omega arith)

-- The callback of `cleaned_up` is asked to stop only by cancellations after the first, or by each
-- one if the task had been cancelled before the context was entered. When the callback returns,
-- the body's outcome stands if no cancellation was shielded, and is `CancelledError` otherwise;
-- an exception of the callback replaces the body's outcome.
pub cleaned_up-after_cancels :
    {B : Type 0} (initial k : ℕ) (body : Outcome B) (o : Outcome (Unit {0}))
    → (context_shield initial 1 (pending_task 0) (after_cancels k o [])
        ≡ completed (unless (ltb 0 k && initial == 0) o) (ended_task (k - (1 - initial)) o))
      × (cleaned_up initial body (pending_task 0) (after_cancels k o []) ≡ elim o [
        | returned _ ↦ some (if ltb 0 k && initial == 0 then raised cancelled_error else body)
        | raised e ↦ some (raised e)
      ])
unfolding cleaned_up
cleaned_up-after_cancels initial k body o =
    let w = context_shield-after_cancels initial k o in
    (w, ap (after_callback body) w ∙ ground arith)
