-- ===== src/FutureState/Tests.antt =====
-- Runs of the state of a future.
use aiodrive.Prelude.{ℕ, ◌≡◌, refl, none}
use aiodrive.Asyncio.{cancelled_error, other, Outcome, raised, Future, settle}
use aiodrive.FutureState.{
  apply, transfer, absorb_future, absorb_awaitable, absorb_lambda, new_success,
}
use aiodrive.FutureState.Laws.{apply-absorb}

abbrev failing : ℕ → Outcome ℕ
failing n = raised (other n)

apply-absorb_test :
    (apply {A = ℕ} (absorb_awaitable 0 (raised cancelled_error)) ≡ raised cancelled_error)
    × (apply {A = ℕ} (absorb_lambda 0 failing 7) ≡ raised (other 7))
    × (apply {A = ℕ} (absorb_future 0 (settle (raised cancelled_error))) ≡ raised cancelled_error)
apply-absorb_test = apply-absorb 0 failing 7 (raised cancelled_error)

transfer_success : transfer {A = ℕ} (new_success 5) Future.pending ≡ (Future.finished 5, none)
unfolding transfer new_success
transfer_success = refl
