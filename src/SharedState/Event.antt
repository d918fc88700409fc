-- ===== src/SharedState/Event.antt =====
-- src/aiodrive/experiments/thread_safe_event.py: `ThreadsafeEvent`, a state that is a Boolean.
use aiodrive.Prelude.{if◌then◌else◌, ℕ, ◌≡◌, refl, Bool, true, false, not}
use aiodrive.SharedState.{
  SharedState, Wait, awaits, new_state, update_value, set_value, observe, runnable,
}

abbrev pub same_flag : Bool → Bool → Bool
same_flag a b = if a then b else not b

module _ (closed : ℕ → Bool) where
  unfoldable pub set_event : SharedState Bool → SharedState Bool
  unfolding set_value
  set_event = set_value same_flag closed true

  -- `clear` and `unset`.
  unfoldable pub unset_event : SharedState Bool → SharedState Bool
  unfolding set_value
  unset_event = set_value same_flag closed false

  -- `wait_set` and `wait_unset`, on an event loop.
  unfoldable pub wait_event : Bool → ℕ → SharedState Bool → Wait Bool × SharedState Bool
  unfolding observe
  wait_event wanted loop s = observe loop (λ value. same_flag wanted value) s

  -- A task that waits for an event that is set and at once unset by another thread is resumed, but
  -- it finds the event unset, and waits again.
  pub wait_event_brief :
      (loop : ℕ)
      → closed loop ≡ false
      → let (c, s) = wait_event true loop (new_state false) in
        let s' = unset_event (set_event s) in
        (runnable c s' ≡ true) × ((wait_event true loop s').0 ≡ awaits s'.next_future)
  unfolding wait_event set_event unset_event set_value update_value observe new_state runnable
  wait_event_brief loop h = (rw h refl, refl)
