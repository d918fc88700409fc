-- ===== src/Awaitables/Tests.antt =====
-- A task and a future that are terminated.
use aiodrive.Prelude.{ℕ, ◌≡◌, refl, true, some, [], ◌∷◌}
use aiodrive.Asyncio.{value_error, returned, raised, Future}
use aiodrive.Cancel.{unmatched}
use aiodrive.Shield.{cancels, ends}
use aiodrive.Awaitables.{awaitable, plain, possibly_await, task, future, terminated, terminate}
use aiodrive.Awaitables.Laws.{all_done, terminate_done, terminate_future}

terminate_done_test :
    all_done (
      terminate 0
        (task (record { future = Future.pending; requests = 0 }))
        (cancels ∷ ends (returned tt) ∷ []))
    ≡ true
terminate_done_test =
    terminate_done 0 (task (record { future = Future.pending; requests = 0 }))
      (cancels ∷ ends (returned tt) ∷ [])

terminate_future_test :
    terminate 1 (future (Future.failed value_error)) []
    ≡ terminated (raised value_error) (some (Future.failed value_error))
unfolding unmatched
terminate_future_test = terminate_future 1 (Future.failed value_error) []

possibly_await_test : possibly_await {A = ℕ} (plain 7) ≡ possibly_await (awaitable (returned 7))
unfolding possibly_await
possibly_await_test = refl
