-- ===== src/ThreadLoop/Tests.antt =====
-- A call in a thread whose launching task is cancelled, and the sync callers.
use aiodrive.Prelude.{ℕ, ◌≡◌, true, false, [], arith}
use aiodrive.Asyncio.{cancelled_error, returned, raised}
use aiodrive.Cancel.{unmatched}
use aiodrive.SharedState.Launch.{thread_main}
use aiodrive.ThreadLoop.{
  done, run_in_thread_loop, run_in_thread_loop_contextualized_sync, run_async,
}
use aiodrive.ThreadLoop.Runs.{
  moments, run_in_thread_loop-moments, run_in_thread_loop_contextualized_sync-thread_main,
  run_async-thread_main,
}

run_in_thread_loop-moments_example :
    run_in_thread_loop {A = ℕ} 3 (thread_main 0 (returned 7)) (moments 2 1 0 [])
    ≡ done (raised cancelled_error) 2
run_in_thread_loop-moments_example =
    run_in_thread_loop-moments {A = ℕ} 0 3 2 1 0 (returned 7) [] (omega arith) (omega arith)
      (omega arith)

run_in_thread_loop_contextualized_sync-thread_main_test :
    run_in_thread_loop_contextualized_sync {A = ℕ} 0 true
      (thread_main 0 (raised cancelled_error))
      (returned 5)
      (moments 0 0 0 [])
    ≡ done (returned 5) 1
unfolding unmatched
run_in_thread_loop_contextualized_sync-thread_main_test =
    run_in_thread_loop_contextualized_sync-thread_main {A = ℕ} 0 true (raised cancelled_error)
      (returned 5) []

run_async-thread_main_test :
    run_async {A = ℕ} 0 1 false (thread_main 0 (raised cancelled_error)) (moments 0 0 0 [])
    ≡ done (raised cancelled_error) 0
run_async-thread_main_test =
    run_async-thread_main {A = ℕ} 0 1 false (raised cancelled_error) [] (omega arith)
