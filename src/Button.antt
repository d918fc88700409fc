-- ===== src/Button.antt =====
-- src/aiodrive/modules/button.py: `Cargo` and `Button`, which wake their waiters when called.
-- An object is its history of futures; a waiter holds the number of the future that it awaits.
-- `shield` in `__await__` keeps a waiter's cancellation away from the future.
pub mod Laws
mod Tests
use aiodrive.Prelude.{update, ℕ, suc, Option, none, some}
use aiodrive.Asyncio.{Outcome, Future, pending, set_result, await_done, Effect, and_then}

pub record Cargo {ℓ} (A : Type ℓ) : Type ℓ where
  pub current : ℕ
  pub futures : ℕ → Future A

module _ {ℓ} {A : Type ℓ} where
  unfoldable pub new : Cargo A
  new = record { current = 0; futures = λ _. pending }

  -- `loop.create_future()` stored in `_future`.
  abbrev pub renew : Cargo A → Cargo A
  renew c = record { current = suc c.current; futures = update c.futures (suc c.current) pending }

  -- `Cargo.__call__`: the object afterwards, and what the call raised.
  unfoldable pub call : A → Cargo A → Effect (Cargo A)
  call value c =
      and_then (set_result value (c.futures c.current))
        (λ f. (renew (record c { futures = update c.futures c.current f }), none)) (λ f. c)

  -- `__await__`: the number of the future that is awaited.
  unfoldable pub await : Cargo A → ℕ
  await c = c.current

  -- What a waiter on future `n` gets, `none` while it sleeps.
  unfoldable pub woken : Cargo A → ℕ → Option (Outcome A)
  woken c n = await_done (c.futures n)

abbrev pub Button : Type 0
Button = Cargo (Unit {0})

unfoldable pub press : Button → Effect Button
unfolding call
press b = call tt b
