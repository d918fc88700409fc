-- ===== src/SharedState/Launch.antt =====
-- `launch_in_thread_loop` of src/aiodrive/modules/thread_loop.py and `launch_in_thread_loop_sync`
-- of thread_sync.py: the stages of the new thread, and how its result comes back.
use aiodrive.Prelude.{if◌then◌else◌, Bool, true, false, not}
use aiodrive.Asyncio.{cancelled_error, is_cancelled_error, Outcome, returned, raised}
use aiodrive.FutureState.{FutureState, apply, absorb_lambda}
use aiodrive.Cancel.{suppress}
use aiodrive.SharedState.{SharedState, set_value}

pub data Stage : Type 0 where
  join preparing running : Stage

abbrev pub eq_stage : Stage → Stage → Bool
eq_stage join join = true
eq_stage preparing preparing = true
eq_stage running running = true
eq_stage _ _ = false

-- What the launching side waits for: `launch_in_thread_loop` and its sync counterpart.
abbrev pub has_started : Stage → Bool
has_started s = not (eq_stage s preparing)

abbrev pub is_running : Stage → Bool
is_running s = eq_stage s running

-- The thread sets the stages one after the other: `running` in its event loop, `join` at the end.
unfoldable pub set_running : SharedState Stage → SharedState Stage
unfolding set_value
set_running = set_value eq_stage (λ _. false) running

unfoldable pub set_join : SharedState Stage → SharedState Stage
unfolding set_value
set_join = set_value eq_stage (λ _. false) join

module _ {A : Type 0} where
  -- `finish` of `launch_in_thread_loop` once the thread has ended; `was_cancelled` says whether the
  -- launching task has been cancelled meanwhile.
  unfoldable pub finish : Bool → FutureState A → Outcome A
  unfolding apply
  finish was_cancelled result = elim (apply result) [
    | raised e ↦ raised e
    | returned value ↦ if was_cancelled then raised cancelled_error else returned value
  ]

module _ {A : Type 0} (py_none : A) where
  -- The value that `thread_main` stores: the outcome of `asyncio.run` on the target.
  unfoldable pub thread_main : Outcome A → FutureState A
  unfolding absorb_lambda
  thread_main o = absorb_lambda py_none (λ (u : Unit {0}). o) tt

  -- `finish` of the sync counterpart, whose caller may have an event loop or not.
  unfoldable pub finish_sync : Bool → FutureState A → Outcome A
  unfolding apply suppress
  finish_sync has_loop result = elim (apply result) [
    | returned value ↦ returned value
    | raised e ↦ elim (suppress is_cancelled_error false has_loop 0 0 (raised e)) [
      | returned _ ↦ returned py_none
      | raised e' ↦ raised e'
    ]
  ]
