-- ===== src/Coroutine.antt =====
-- src/aiodrive/modules/prime.py, daemon.py and src/aiodrive/experiments/reusable.py, on coroutines
-- as trees: what a coroutine yields to the event loop, and how it goes on with what it is resumed
-- by. Python's `None` is `py_none`, and a coroutine here finishes however it is resumed.
pub mod Runs
mod Tests
use aiodrive.Prelude.{if◌then◌else◌, Bool, true, false}
use aiodrive.Asyncio.{
  Exn, runtime_error, stop_iteration, daemon_return_error, Outcome, returned, raised,
}
use aiodrive.FutureState.{FutureState, apply, absorb_lambda}

-- `send(value)` or `throw(exception)`.
pub data Resumption {ℓ} (V : Type ℓ) : Type ℓ where
  sends : V → Resumption V
  throws : Exn → Resumption V

pub data Coroutine {ℓ κ} (V : Type ℓ) (A : Type κ) : Type (ℓ ⊔ κ) where
  finishes : Outcome A → Coroutine V A
  yields : V → (Resumption V → Coroutine V A) → Coroutine V A

-- The result of `prime`. `generator` is the coroutine before the step that gave the hint.
pub record Primed (V A : Type 0) : Type 0 where
  pub hint : FutureState V
  pub generator : Coroutine V A

module _ {V : Type 0} {A : Type 0} where
  -- `generator.send(None)` on a coroutine that has not started. What it returns is carried by
  -- `StopIteration`, and is read from the coroutine.
  unfoldable pub first_send : Coroutine V A → V → Outcome V
  first_send (finishes (returned a)) v = raised stop_iteration
  first_send (finishes (raised e)) v = raised e
  first_send (yields value resume) v = returned value

  -- The first step is made at once.
  unfoldable pub prime : V → Coroutine V A → Primed V A
  unfolding absorb_lambda first_send
  prime py_none generator = record {
    hint = absorb_lambda py_none (first_send generator) py_none;
    generator = generator;
  }

abbrev pub is_stop_iteration : Exn → Bool
is_stop_iteration stop_iteration = true
is_stop_iteration _ = false

-- What the loop of `inner` passes on: on a resumption by `send` it sends the value that it has
-- just yielded, not the one that it was given.
abbrev pub pass_on : {V : Type 0} → V → Resumption V → Resumption V
pass_on value (sends x) = sends value
pass_on value (throws e) = throws e

module _ {V : Type 0} {A : Type 0} where
  -- The `while` loop, from the coroutine that the resumption before has left.
  unfoldable pub replay : Coroutine V A → Coroutine V A
  replay (finishes o) = finishes o
  replay (yields value resume) = yields value (λ r. replay (resume (pass_on value r)))

  -- The loop is entered with the value of the hint, at the coroutine's first suspension.
  abbrev pub enter_loop : V → Coroutine V A → Coroutine V A
  enter_loop value (yields _ resume) = yields value (λ r. replay (resume (pass_on value r)))
  enter_loop value (finishes o) = finishes o

  -- `except StopIteration as e: return e.value`.
  abbrev pub stopped : Coroutine V A → Coroutine V A
  stopped (finishes o) = finishes o
  stopped (yields _ resume) = finishes (raised runtime_error)

  abbrev pub go_on : Coroutine V A → Outcome V → Coroutine V A
  go_on generator (returned value) = enter_loop value generator
  go_on generator (raised e) =
      if is_stop_iteration e then stopped generator else finishes (raised e)

  -- `inner`, the awaitable that `prime` returns.
  unfoldable pub inner : Primed V A → Coroutine V A
  unfolding replay apply
  inner p = go_on p.generator (apply p.hint)

  -- `ensure_daemon`: `yield from` the awaitable, then the error.
  unfoldable pub ensure_daemon : Coroutine V A → Coroutine V A
  ensure_daemon (finishes (returned a)) = finishes (raised daemon_return_error)
  ensure_daemon (finishes (raised e)) = finishes (raised e)
  ensure_daemon (yields value resume) = yields value (λ r. ensure_daemon (resume r))

  -- `reusable` of src/aiodrive/experiments/reusable.py: `yield from`, and then what `close` returns.
  unfoldable pub reusable : A → Coroutine V A → Coroutine V A
  reusable py_none (finishes (returned a)) = finishes (returned py_none)
  reusable py_none (finishes (raised e)) = finishes (raised e)
  reusable py_none (yields value resume) = yields value (λ r. reusable py_none (resume r))
