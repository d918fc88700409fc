-- ===== src/Multiprocessing/Closing/Tests.antt =====
-- A call that is cancelled twice, and a process that ends with an error.
use aiodrive.Prelude.{ℕ, ◌≡◌, false, [], arith}
use aiodrive.Asyncio.{cancelled_error, runtime_error, connection_error, returned, raised}
use aiodrive.Shield.{completed}
use aiodrive.Shield.Waiting.{after_cancels, pending_task, ended_task}
use aiodrive.Scope.{enter_scope}
use aiodrive.Multiprocessing.Closing.{
  spawn_wait, spawn_wait-after_cancels, close_callback, exit_process, exit_process-close_callback,
}

spawn_wait-after_cancels_test :
    spawn_wait {A = ℕ} 3 false (pending_task 0) (after_cancels 2 (returned 7) [])
    ≡ (completed (raised cancelled_error) (ended_task 0 (returned 7)), 2)
spawn_wait-after_cancels_test = spawn_wait-after_cancels 3 2 0 false (returned 7) [] (omega arith)

exit_process-close_callback_test :
    exit_process
      (enter_scope 0)
      (returned tt)
      (pending_task 0)
      (after_cancels 0 (raised cancelled_error) [])
      (close_callback (raised connection_error) (returned tt) 3)
    ≡ completed (raised runtime_error) (ended_task 0 (raised cancelled_error))
exit_process-close_callback_test =
    exit_process-close_callback (enter_scope 0) (returned tt) false 3 []
