-- ===== src/Asyncio.antt =====
-- What the library uses of asyncio: exceptions, the outcome of a coroutine, and futures.
use aiodrive.Prelude.{
  if◌then◌else◌, ℕ, ◌+◌, ◌≡◌, refl, ◌⊎◌, inl, inr, Bool, true, false, Option, none, some, List, [],
  ◌∷◌,
}

-- The exceptions that the library raises or tells apart; `other` is any other exception.
mutual
  pub data Exn : Type 0 where
    cancelled_error assertion_error runtime_error type_error value_error : Exn
    eof_error key_error overflow_error invalid_state_error connection_error : Exn
    stop_iteration stop_async_iteration daemon_return_error : Exn
    task_group_terminated suppress_failure_error : Exn
    signal_handled : ℕ → Exn
    process_terminated : ℕ → Exn
    group : Exns → Exn
    other : ℕ → Exn

  pub data Exns : Type 0 where
    end : Exns
    more : Exn → Exns → Exns

-- `BaseExceptionGroup("", exceptions)`.
abbrev pub exns : List Exn → Exns
exns [] = end
exns (e ∷ es) = more e (exns es)

abbrev pub is_cancelled_error : Exn → Bool
is_cancelled_error cancelled_error = true
is_cancelled_error _ = false

abbrev pub is_stop_async_iteration : Exn → Bool
is_stop_async_iteration stop_async_iteration = true
is_stop_async_iteration _ = false

-- How the run of a function or a coroutine ends.
pub data Outcome {ℓ} (A : Type ℓ) : Type ℓ where
  returned : A → Outcome A
  raised : Exn → Outcome A

-- `asyncio.Future`.
pub data Future {ℓ} (A : Type ℓ) : Type ℓ where
  pending cancelled : Future A
  failed : Exn → Future A
  finished : A → Future A

module _ {ℓ} {A : Type ℓ} where
  abbrev pub is_done : Future A → Bool
  is_done pending = false
  is_done _ = true

  abbrev pub is_cancelled : Future A → Bool
  is_cancelled cancelled = true
  is_cancelled _ = false

  -- `Future.cancel`: a future that is done stays as it is.
  abbrev pub cancel : Future A → Future A
  cancel pending = cancelled
  cancel f = f

  -- `Future.set_result` and `Future.set_exception` refuse a future that is done.
  abbrev pub set_result : A → Future A → Future A × Option Exn
  set_result a pending = (finished a, none)
  set_result a f = (f, some invalid_state_error)

  abbrev pub set_exception : Exn → Future A → Future A × Option Exn
  set_exception e pending = (failed e, none)
  set_exception e f = (f, some invalid_state_error)

  -- What awaiting a future gives, once it is done.
  abbrev pub await_done : Future A → Option (Outcome A)
  await_done pending = none
  await_done cancelled = some (raised cancelled_error)
  await_done (failed e) = some (raised e)
  await_done (finished a) = some (returned a)

  -- The future of a task whose coroutine ended so.
  abbrev pub settle : Outcome A → Future A
  settle (returned a) = finished a
  settle (raised cancelled_error) = cancelled
  settle (raised e) = failed e

-- A method's result is its object afterwards and what it raised.
abbrev pub Effect {ℓ} : Type ℓ → Type ℓ
Effect S = S × Option Exn

-- Goes on with `f` where nothing was raised, and with the object of `back` where something was.
abbrev pub and_then {ℓ κ} :
    {S : Type ℓ} {T : Type κ} → Effect S → (S → Effect T) → (S → T) → Effect T
and_then (s, none) f back = f s
and_then (s, some e) f back = (back s, some e)

-- A task, and the cancellation requests that reached it before it was done.
pub record Task {ℓ} (A : Type ℓ) : Type ℓ where
  pub future : Future A
  pub requests : ℕ

module _ {ℓ} {A : Type ℓ} where
  abbrev pub task_done : Task A → Bool
  task_done t = is_done t.future

  abbrev pub task_cancelled : Task A → Bool
  task_cancelled t = is_cancelled t.future

  -- `Task.cancel`: without effect on a task that is done.
  abbrev pub request : Task A → Task A
  request t = if task_done t then t else record t { requests = t.requests + 1 }

  -- `Task.result`.
  abbrev pub result : Future A → Outcome A
  result pending = raised invalid_state_error
  result cancelled = raised cancelled_error
  result (failed e) = raised e
  result (finished a) = returned a

  unfoldable pub complete_task : Outcome A → Task A → Task A
  complete_task o t = if task_done t then t else record t { future = settle o }

pub Outcome-cases {ℓ} :
    {A : Type ℓ} (o : Outcome A) → ((a : A) × (o ≡ returned a)) ⊎ ((e : Exn) × (o ≡ raised e))
Outcome-cases (returned a) = inl (a, refl)
Outcome-cases (raised e) = inr (e, refl)
