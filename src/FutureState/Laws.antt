-- ===== src/FutureState/Laws.antt =====
-- What src/aiodrive/modules/future_state.py promises: nothing is lost on the way from a future or
-- a call into a state and back.
use aiodrive.Prelude.{if◌then◌else◌, ◌≡◌, none, some, arith}
use aiodrive.Asyncio.{Exn, assertion_error, Outcome, returned, raised, Future, is_done, settle}
use aiodrive.FutureState.{
  apply, transfer, absorb_future, absorb_awaitable, absorb_lambda, absorb_context,
}

module _ {ℓ} {A : Type ℓ} (py_none : A) where
  -- A raised exception is absorbed into a state that raises the same exception.
  pub apply-absorb_raised : (e : Exn) → apply (absorb_awaitable py_none (raised e)) ≡ raised e
  unfolding apply absorb_awaitable
  apply-absorb_raised e = ground arith

  -- Applying the state absorbed from an awaitable, from a call or from a future that is done
  -- returns the same value or raises the same exception, the cancellation included.
  pub apply-absorb {κ} :
      {P : Type κ} (func : P → Outcome A) (args : P) (o : Outcome A)
      → (apply (absorb_awaitable py_none o) ≡ o)
        × (apply (absorb_lambda py_none func args) ≡ func args)
        × (apply (absorb_future py_none (settle o)) ≡ o)
  unfolding apply absorb_awaitable absorb_lambda absorb_future
  apply-absorb func args o = (ground arith, ground arith, ground arith)

  -- Absorbing any future and transferring the state to a future that is pending makes that future
  -- a copy and raises nothing; one that is done is refused by an assertion and left alone.
  pub transfer-absorb_future :
      (source destination : Future A)
      → transfer (absorb_future py_none source) destination
        ≡ (if is_done destination then (destination, some assertion_error) else (source, none))
  unfolding transfer absorb_future
  transfer-absorb_future source destination = ground arith

  -- A context block leaves the state of an awaitable that ends as the block does, with the given
  -- result in place of the block's value.
  pub absorb_context-absorb_awaitable {κ} :
      {B : Type κ} (value : A) (b : B) (e : Exn)
      → (absorb_context py_none value (returned b) ≡ absorb_awaitable py_none (returned value))
        × (absorb_context py_none {B = B} value (raised e) ≡ absorb_awaitable py_none (raised e))
  unfolding absorb_context absorb_awaitable
  absorb_context-absorb_awaitable value b e = (ground arith, ground arith)
