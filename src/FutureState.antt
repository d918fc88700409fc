-- ===== src/FutureState.antt =====
-- src/aiodrive/modules/future_state.py: the state of a future as a value. Python's `None`, the
-- default of the field `result`, is the parameter `py_none`.
pub mod Laws
mod Tests
use aiodrive.Prelude.{Bool, Option, none, some, if◌then◌else◌}
use aiodrive.Asyncio.{
  Exn, cancelled_error, assertion_error, runtime_error, Outcome, returned, raised, Future, is_done,
  cancel, set_result, set_exception, is_cancelled_error,
}

pub data Status : Type 0 where
  cancelled exception pending success : Status

pub record FutureState {ℓ} (A : Type ℓ) : Type ℓ where
  pub exception : Option Exn
  pub result : A
  pub status : Status

module _ {ℓ} {A : Type ℓ} where
  -- `match self.status`, which returns or raises.
  apply_status : Status → FutureState A → Outcome A
  apply_status cancelled s = raised cancelled_error
  apply_status exception s = elim s.exception [ none ↦ raised assertion_error | some e ↦ raised e ]
  apply_status pending s = raised runtime_error
  apply_status success s = returned s.result

  unfoldable pub apply : FutureState A → Outcome A
  unfolding apply_status
  apply s = apply_status s.status s

  transfer_status : Status → FutureState A → Future A → Future A × Option Exn
  transfer_status cancelled s f = (cancel f, none)
  transfer_status exception s f = elim s.exception [
    | none ↦ (f, some assertion_error)
    | some e ↦ set_exception e f
  ]
  transfer_status pending s f = (f, none)
  transfer_status success s f = set_result s.result f

  -- The future afterwards, and what the call raised.
  unfoldable pub transfer : FutureState A → Future A → Future A × Option Exn
  unfolding transfer_status
  transfer s f = if is_done f then (f, some assertion_error) else transfer_status s.status s f

  unfoldable pub new_success : A → FutureState A
  new_success a = record { exception = none; result = a; status = success }

module _ {ℓ} {A : Type ℓ} (py_none : A) where
  unfoldable pub new_cancelled : FutureState A
  new_cancelled = record { exception = none; result = py_none; status = cancelled }

  unfoldable pub new_failed : Exn → FutureState A
  new_failed e = record { exception = some e; result = py_none; status = exception }

  unfoldable pub new_pending : FutureState A
  new_pending = record { exception = none; result = py_none; status = pending }

  unfoldable pub absorb_future : Future A → FutureState A
  unfolding new_cancelled new_failed new_pending new_success
  absorb_future Future.pending = new_pending
  absorb_future Future.cancelled = new_cancelled
  absorb_future (Future.failed e) = new_failed e
  absorb_future (Future.finished a) = new_success a

  -- The two `except` clauses, in their order.
  absorb_raised : Exn → FutureState A
  unfolding new_cancelled new_failed
  absorb_raised e = if is_cancelled_error e then new_cancelled else new_failed e

  unfoldable pub absorb_awaitable : Outcome A → FutureState A
  unfolding absorb_raised new_success
  absorb_awaitable (returned a) = new_success a
  absorb_awaitable (raised e) = absorb_raised e

  -- `func` is called here: its outcome is that of the call on `args`.
  unfoldable pub absorb_lambda {κ} : {P : Type κ} → (P → Outcome A) → P → FutureState A
  unfolding absorb_raised new_success
  absorb_lambda func args = elim (func args) [
    | returned a ↦ new_success a
    | raised e ↦ absorb_raised e
  ]

  -- The state once the context block has ended as `block` says; nothing escapes the block.
  unfoldable pub absorb_context {κ} : {B : Type κ} → A → Outcome B → FutureState A
  unfolding new_pending
  absorb_context value (returned _) = record new_pending { status = success; result = value }
  absorb_context value (raised e) =
      if is_cancelled_error e
      then record new_pending { status = cancelled }
      else record new_pending { status = exception; exception = some e }
