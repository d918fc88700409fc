-- ===== src/SharedState/Tests.antt =====
-- A watched number, and a thread that has been launched.
use aiodrive.Prelude.{◌==◌, ℕ, ◌+◌, ◌≡◌, refl, Bool, true, false, ◌||◌}
use aiodrive.Asyncio.{cancelled_error, returned, raised}
use aiodrive.Cancel.{unmatched}
use aiodrive.SharedState.{awaits, new_state, update_value, observe, runnable}
use aiodrive.SharedState.Waiting.{
  Watched, observed, updates, goes_on, Reach, async_call, next, Reach-IsRight,
}
use aiodrive.SharedState.Launch.{
  preparing, running, has_started, set_running, finish, thread_main, finish_sync,
}
use aiodrive.SharedState.Stages.{
  open_loops, has_returned, launch-proceeds, finish-thread_main, finish_sync-thread_main,
}

abbrev is_three : ℕ → Bool
is_three n = n == 3

abbrev changed : Watched ◌==◌ open_loops 0 is_three
changed = record {
  state = update_value ◌==◌ open_loops (λ n. n + 1) (observe 0 is_three (new_state 1)).1;
  call = awaits 0;
}

changed-Reach : Reach ◌==◌ open_loops 0 is_three (new_state 1) changed
unfolding observe new_state
changed-Reach = next async_call (updates (λ n. n + 1))

again-Reach :
    Reach ◌==◌ open_loops 0 is_three
      (new_state 1)
      (observed ◌==◌ open_loops 0 is_three (observe 0 is_three changed.state))
unfolding observe new_state update_value runnable
again-Reach = next changed-Reach (goes_on 0 refl refl)

Reach-IsRight_example : is_three (observe 0 is_three changed.state).1.value ≡ false
unfolding observe update_value new_state runnable
Reach-IsRight_example = Reach-IsRight ◌==◌ open_loops 0 is_three refl again-Reach refl

launch-proceeds_test :
    let s = set_running (observe 0 has_started (new_state preparing)).1 in
    (runnable (awaits 0) s || has_returned (awaits 0)) ≡ true
unfolding observe new_state set_running
launch-proceeds_test = launch-proceeds (next async_call (updates (λ _. running))) refl

finish-thread_main_test : finish {A = ℕ} true (thread_main 0 (returned 7)) ≡ raised cancelled_error
finish-thread_main_test = finish-thread_main {A = ℕ} 0 true (returned 7)

finish_sync-thread_main_test :
    finish_sync {A = ℕ} 0 false (thread_main 0 (raised cancelled_error)) ≡ returned 0
unfolding unmatched
finish_sync-thread_main_test = finish_sync-thread_main {A = ℕ} 0 false (raised cancelled_error)
