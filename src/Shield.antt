-- ===== src/Shield.antt =====
-- src/aiodrive/modules/shield.py, and cleanup.py, which is built on it. The coroutines here await
-- one task and are driven by a list of events: a cancellation of the awaiting task, or the end of
-- the awaited one. What each wait does is asyncio's; what is done about it is the source's.
pub mod Callbacks
pub mod Waiting
mod Tests
use aiodrive.Prelude.{
  leb, if◌then◌else◌, ℕ, zero, suc, ◌-◌, Bool, true, false, Option, none, some, List, [], ◌∷◌,
}
use aiodrive.Asyncio.{
  cancelled_error, is_cancelled_error, Outcome, returned, raised, await_done, Task, request,
  complete_task,
}

pub data Event {ℓ} (A : Type ℓ) : Type ℓ where
  cancels : Event A
  ends : Outcome A → Event A

-- The result of one `await`, with the task and the events that are left.
pub data Awaited {ℓ} (A : Type ℓ) : Type ℓ where
  asleep : Task A → Awaited A
  resumed : Outcome A → Task A → List (Event A) → Awaited A

-- The result of a coroutine. `spinning` says that its fuel ran out.
pub data Run {ℓ} (A : Type ℓ) : Type ℓ where
  suspended : Task A → Run A
  completed : Outcome A → Task A → Run A
  spinning : Run A

module _ {ℓ} {A : Type ℓ} where
  -- `await shield(task)`: a task that is done is returned itself, and a cancellation of the
  -- awaiting task does not reach one that is pending.
  unfoldable pub await_shielded : Task A → List (Event A) → Awaited A
  await_shielded t es = elim (await_done t.future) [
    | some o ↦ resumed o t es
    | none ↦ elim es [
      | [] ↦ asleep t
      | cancels ∷ rest ↦ resumed (raised cancelled_error) t rest
      | ends o ∷ rest ↦ resumed o (complete_task o t) rest
    ]
  ]

  -- `await task`: a cancellation is passed on to the task.
  unfoldable pub await_pending : Task A → List (Event A) → Awaited A
  await_pending t [] = asleep t
  await_pending t (cancels ∷ rest) = await_pending (request t) rest
  await_pending t (ends o ∷ rest) = resumed o (complete_task o t) rest

  unfoldable pub await_task : Task A → List (Event A) → Awaited A
  unfolding await_pending
  await_task t es = elim (await_done t.future) [
    | some o ↦ resumed o t es
    | none ↦ await_pending t es
  ]

  -- The value `result`, unless the flag `cancelled` is up.
  abbrev pub conclude : Bool → A → Outcome A
  conclude flag a = if flag then raised cancelled_error else returned a

  abbrev pub finish : Bool → Awaited A → Run A
  finish flag (asleep t) = suspended t
  finish flag (resumed (returned a) t es) = completed (conclude flag a) t
  finish flag (resumed (raised e) t es) = completed (raised e) t

  -- One round of a loop: `except CancelledError` goes on as `next` says.
  abbrev pub round : Bool → Awaited A → (Task A → List (Event A) → Run A) → Run A
  round flag (asleep t) next = suspended t
  round flag (resumed (returned a) t es) next = completed (conclude flag a) t
  round flag (resumed (raised e) t es) next =
      if is_cancelled_error e then next t es else completed (raised e) t

  -- The `for` loop, and its `else` branch when the rounds are used up.
  unfoldable pub shield_loop : ℕ → Bool → Task A → List (Event A) → Run A
  shield_loop zero flag t es = finish flag (await_task t es)
  shield_loop (suc n) flag t es = round flag (await_shielded t es) (shield_loop n true)

  unfoldable pub shield_wait : ℕ → Task A → List (Event A) → Run A
  unfolding shield_loop await_task await_shielded
  shield_wait shield_count t es =
      if leb shield_count 0
      then finish false (await_task t es)
      else shield_loop shield_count false t es

  -- The `while True` loop, on fuel.
  unfoldable pub forever_loop : ℕ → Bool → Task A → List (Event A) → Run A
  unfolding await_shielded
  forever_loop zero flag t es = spinning
  forever_loop (suc fuel) flag t es = round flag (await_shielded t es) (forever_loop fuel true)

  unfoldable pub shield_wait_forever : ℕ → Task A → List (Event A) → Run A
  unfolding forever_loop
  shield_wait_forever fuel t es = forever_loop fuel false t es

  -- `ShieldContext.shield`, from the cancellation count at the context's creation. A difference
  -- below zero is cut to zero here, and `shield_wait` treats both alike.
  unfoldable pub context_shield : ℕ → ℕ → Task A → List (Event A) → Run A
  unfolding shield_wait
  context_shield initial_count shield_count t es = shield_wait (shield_count - initial_count) t es

-- The `finally` clause of `cleaned_up` after its body has ended: an exception of the callback
-- takes the place of the body's outcome; `none` while the callback runs.
abbrev pub after_callback {ℓ} : {B : Type ℓ} → Outcome B → Run (Unit {0}) → Option (Outcome B)
after_callback body (completed (returned _) _) = some body
after_callback body (completed (raised e) _) = some (raised e)
after_callback body (suspended _) = none
after_callback body spinning = none

unfoldable pub cleaned_up {ℓ} :
    {B : Type ℓ} → ℕ → Outcome B → Task (Unit {0}) → List (Event (Unit {0})) → Option (Outcome B)
cleaned_up initial_count body t es = after_callback body (context_shield initial_count 1 t es)
