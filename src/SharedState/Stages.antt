-- ===== src/SharedState/Stages.antt =====
-- Whether the launching side of src/aiodrive/modules/thread_loop.py and thread_sync.py goes on.
use aiodrive.Prelude.{
  if◌then◌else◌, Bool-cases, ℕ, ◌≡◌, refl, inl, inr, Bool, true, false, ◌||◌, none, some, arith,
}
use aiodrive.Asyncio.{cancelled_error, is_cancelled_error, Outcome, returned, raised}
use aiodrive.Cancel.{ensure_correct_cancellation, unmatched, suppress_block}
use aiodrive.SharedState.{Wait, returns, awaits, blocks, new_state, check_sync, runnable}
use aiodrive.SharedState.Waiting.{
  Watched, updates, goes_on_sync, Reach, sync_call, next, IsRight, Reach-IsRight,
}
use aiodrive.SharedState.Launch.{
  Stage, join, preparing, running, eq_stage, has_started, is_running, set_running, set_join, finish,
  thread_main, finish_sync,
}

-- No event loop is closed.
abbrev pub open_loops : ℕ → Bool
open_loops _ = false

abbrev pub has_returned : Wait Stage → Bool
has_returned (returns v) = true
has_returned (awaits f) = false
has_returned (blocks n) = false

returned_or :
    (w : Watched eq_stage open_loops 0 has_started) (c : Wait Stage)
    → has_started w.state.value ≡ true
    → IsRight eq_stage open_loops 0 has_started w c
    → has_returned c ≡ true
returned_or w (returns v) s h = refl
returned_or w (awaits f) s h = cc
returned_or w (blocks n) s h = cc

-- Once the thread has started, `launch_in_thread_loop` can go on or has gone on, however late it is
-- resumed and whatever stages have passed meanwhile.
pub launch-proceeds :
    {w : Watched eq_stage open_loops 0 has_started}
    → Reach eq_stage open_loops 0 has_started (new_state preparing) w
    → has_started w.state.value ≡ true
    → (runnable w.call w.state || has_returned w.call) ≡ true
launch-proceeds {w} r h = elim (Bool-cases (runnable w.call w.state)) [
  | inl y ↦ rw y refl
  | inr n ↦ rw n (returned_or w w.call h (Reach-IsRight eq_stage open_loops 0 has_started refl r n))
]

-- The sync launcher does not: if the thread sets both stages before the launcher, which waits for
-- `running`, takes the lock again, the launcher waits for a change when the thread has ended.
pub launch_sync_stuck :
    let s = set_join (set_running (new_state preparing)) in
    Reach eq_stage open_loops 0 is_running
      (new_state preparing)
      (record { state = s; call = blocks 2 })
    × (runnable (blocks 2) s ≡ false)
    × (s.value ≡ join)
unfolding set_join set_running new_state check_sync runnable
launch_sync_stuck = (
  next (next (next sync_call (updates (λ _. running))) (updates (λ _. join)))
      (goes_on_sync 0 refl refl),
  refl,
  refl,
)

module _ {A : Type 0} (py_none : A) where
  -- The outcome of the target comes back from the thread: an exception always; a value unless the
  -- launching task was cancelled, which then gets a `CancelledError`.
  pub finish-thread_main :
      (was_cancelled : Bool) (o : Outcome A)
      → finish was_cancelled (thread_main py_none o) ≡ elim o [
        | returned a ↦ if was_cancelled then raised cancelled_error else returned a
        | raised e ↦ raised e
      ]
  unfolding finish thread_main
  finish-thread_main c (returned a) = ground arith
  finish-thread_main c (raised e) = ground arith

  -- The sync counterpart gives back the outcome too, but it takes the cancellations out of an
  -- exception, also out of a group, and returns `None` where nothing is left of it.
  pub finish_sync-thread_main :
      (has_loop : Bool) (o : Outcome A)
      → finish_sync py_none has_loop (thread_main py_none o) ≡ elim o [
        | returned a ↦ returned a
        | raised e ↦ elim (unmatched is_cancelled_error e) [
          | none ↦ returned py_none
          | some e' ↦ raised e'
        ]
      ]
  unfolding finish_sync thread_main ensure_correct_cancellation suppress_block
  finish_sync-thread_main h (returned a) = ground arith
  finish_sync-thread_main h (raised e) = ground arith
