-- ===== src/DaemonHandle/Tests.antt =====
-- Handles of a generator that stops, and of one that does not.
use aiodrive.Prelude.{ℕ, ◌≡◌, true, some, [], ◌∷◌}
use aiodrive.Asyncio.{cancelled_error, assertion_error, runtime_error, returned, raised}
use aiodrive.Shield.{completed}
use aiodrive.Shield.Waiting.{after_cancels, pending_task, ended_task}
use aiodrive.Scope.{enter_scope, use_scope}
use aiodrive.DaemonHandle.{
  new_pending_handle, enter_handle, exit_handle, new_daemon_handle, enter_daemon, exit_daemon,
}
use aiodrive.DaemonHandle.Uses.{
  daemon_end, enter_handle-exit_handle, enter_handle-refused, enter_daemon-refused,
}

enter_handle-exit_handle_example :
    let (o, h) = enter_handle {A = ℕ} 0 (
      new_pending_handle
        (record { items = returned 7 ∷ returned 8 ∷ []; closing = returned tt })) in
    (o ≡ returned 7)
    × (exit_handle 1 (raised cancelled_error) (pending_task 0) (after_cancels 0 (daemon_end h) []) h
        ≡ completed (raised runtime_error) (ended_task 1 (raised runtime_error)))
unfolding enter_scope use_scope
enter_handle-exit_handle_example =
    enter_handle-exit_handle {A = ℕ} 0 1 7 (returned 8 ∷ []) (returned tt) (raised cancelled_error)
      []

enter_handle-refused_test :
    (enter_handle {A = ℕ} 0 (new_pending_handle (record { items = []; closing = returned tt }))).0
    ≡ raised runtime_error
enter_handle-refused_test = (enter_handle-refused {A = ℕ} 0 runtime_error [] (returned tt) true).0

enter_daemon-refused_test :
    (enter_daemon 0 (new_daemon_handle (pending_task 0) true)
      ≡ (new_daemon_handle (pending_task 0) true, some assertion_error))
    × (exit_daemon 0 (returned tt) [] (new_daemon_handle (pending_task 0) true)
        ≡ completed (raised assertion_error) (pending_task 0))
enter_daemon-refused_test = enter_daemon-refused (pending_task 0) true 0 0 (returned tt) []
