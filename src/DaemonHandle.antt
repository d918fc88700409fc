-- ===== src/DaemonHandle.antt =====
-- src/aiodrive/modules/handle.py: daemons that first yield a value, and their handles. A generator
-- is known by what its next steps come to; that of the daemon's wait is one step of a coroutine.
pub mod Uses
mod Tests
use aiodrive.Prelude.{if◌then◌else◌, ℕ, Bool, true, false, Option, none, some, List, [], ◌∷◌}
use aiodrive.Asyncio.{
  Exn, assertion_error, runtime_error, stop_async_iteration, is_cancelled_error,
  is_stop_async_iteration, Outcome, returned, raised, cancel, Task,
}
use aiodrive.Coroutine.{Resumption, sends, throws, Coroutine, finishes, yields, ensure_daemon}
use aiodrive.Cancel.{cancel_task}
use aiodrive.Shield.{Event, Run, completed}
use aiodrive.Scope.{Scoped, enter_scope, contextualize}

-- What `anext` gives the next times, `StopAsyncIteration` after the last, and `aclose`.
pub record Generator (A : Type 0) : Type 0 where
  pub items : List (Outcome A)
  pub closing : Outcome (Unit {0})

module _ {A : Type 0} where
  -- `anext`: a generator that has raised is finished.
  abbrev pub anext : Generator A → Outcome A × Generator A
  anext g = elim g.items [
    | [] ↦ (raised stop_async_iteration, g)
    | o ∷ os ↦ (o, record g { items = elim o [ returned a ↦ os | raised e ↦ [] ] })
  ]

  -- `first_call`: the value, and the generator on which `second_call` goes on.
  unfoldable pub first_call : Generator A → Outcome A × Generator A
  first_call g = elim (anext g).0 [
    | returned a ↦ (returned a, (anext g).1)
    | raised e ↦ (raised (if is_stop_async_iteration e then runtime_error else e), (anext g).1)
  ]

  -- `except CancelledError` in `second_call`. What `aclose` raises replaces the error.
  unfoldable pub stop_generator : Exn → Generator A → Outcome (Unit {0})
  stop_generator cancellation g = elim (anext g).0 [
    | returned a ↦ elim g.closing [ returned u ↦ raised runtime_error | raised e ↦ raised e ]
    | raised e ↦ raised (if is_stop_async_iteration e then cancellation else e)
  ]

  abbrev pub after_future : Generator A → Resumption (Unit {0}) → Coroutine (Unit {0}) (Unit {0})
  after_future g (sends u) = finishes (raised runtime_error)
  after_future g (throws e) =
      if is_cancelled_error e then finishes (stop_generator e g) else finishes (raised e)

  -- `second_call`, which waits for a future that nothing resolves.
  unfoldable pub second_call : Generator A → Coroutine (Unit {0}) (Unit {0})
  unfolding stop_generator
  second_call g = yields tt (after_future g)

-- `PendingDaemonHandle`: `contextualized` is the context, from the scope of `contextualize` and the
-- awaitable that runs in the background. The awaitable is a coroutine, to be awaited once.
pub record PendingDaemonHandle (A : Type 0) : Type 0 where
  pub awaitable : Generator A
  pub awaited : Bool
  pub contextualized : Option (Scoped × Coroutine (Unit {0}) (Unit {0}))

module _ {A : Type 0} where
  -- `using_pending_daemon_handle`.
  unfoldable pub new_pending_handle : Generator A → PendingDaemonHandle A
  new_pending_handle g = record { awaitable = g; awaited = false; contextualized = none }

  -- `await self._awaitable`: the value and `second_call()`.
  unfoldable pub await_awaitable :
      PendingDaemonHandle A → Outcome (A × Coroutine (Unit {0}) (Unit {0}))
  unfolding first_call second_call
  await_awaitable h = if h.awaited then raised runtime_error else elim (first_call h.awaitable).0 [
    | returned a ↦ returned (a, second_call (first_call h.awaitable).1)
    | raised e ↦ raised e
  ]

  -- `start`: the value, and the awaitable of the `DaemonHandle` that is made of it.
  unfoldable pub start_handle :
      PendingDaemonHandle A → Outcome (A × Coroutine (Unit {0}) (Unit {0})) × PendingDaemonHandle A
  unfolding await_awaitable ensure_daemon
  start_handle h = (
    elim (await_awaitable h) [
      | raised e ↦ raised e
      | returned p ↦ returned (p.0, ensure_daemon p.1)
    ],
    record h { awaited = true },
  )

  -- `__aenter__`, in a task with that many cancellation requests.
  unfoldable pub enter_handle : ℕ → PendingDaemonHandle A → Outcome A × PendingDaemonHandle A
  unfolding await_awaitable enter_scope ensure_daemon
  enter_handle requests h = elim (await_awaitable h) [
    | raised e ↦ (raised e, record h { awaited = true })
    | returned p ↦ elim h.contextualized [
      | some c ↦ (raised assertion_error, record h { awaited = true })
      | none ↦ (
        returned p.0,
        record h {
          awaited = true;
          contextualized = some (enter_scope requests, ensure_daemon p.1);
        },
      )
    ]
  ]

  -- `__aexit__`, with the cancellation requests of the current task and the task of the daemon, as
  -- they are then.
  unfoldable pub exit_handle :
      ℕ
      → Outcome (Unit {0})
      → Task (Unit {0})
      → List (Event (Unit {0}))
      → PendingDaemonHandle A
      → Run (Unit {0})
  unfolding contextualize
  exit_handle requests body t es h = elim h.contextualized [
    | none ↦ completed (raised assertion_error) t
    | some c ↦ contextualize (record c.0 { requests = requests }) body t es
  ]

-- `DaemonHandle`: its task is a `Task` of asyncio, or else a future.
pub record DaemonHandle : Type 0 where
  pub contextualized : Option Scoped
  pub task : Task (Unit {0})
  pub is_task : Bool

unfoldable pub new_daemon_handle : Task (Unit {0}) → Bool → DaemonHandle
new_daemon_handle t is_task = record { contextualized = none; task = t; is_task = is_task }

-- `__aenter__` and `__aexit__`.
unfoldable pub enter_daemon : ℕ → DaemonHandle → DaemonHandle × Option Exn
unfolding enter_scope
enter_daemon requests h = elim h.contextualized [
  | none ↦ (h, some assertion_error)
  | some s ↦ (record h { contextualized = some (enter_scope requests) }, none)
]

unfoldable pub exit_daemon :
    ℕ → Outcome (Unit {0}) → List (Event (Unit {0})) → DaemonHandle → Run (Unit {0})
unfolding contextualize
exit_daemon requests body es h = elim h.contextualized [
  | none ↦ completed (raised assertion_error) h.task
  | some s ↦ contextualize (record s { requests = requests }) body h.task es
]

-- `aclose`.
unfoldable pub close_daemon : List (Event (Unit {0})) → DaemonHandle → Run (Unit {0})
unfolding cancel_task
close_daemon es h =
    if h.is_task
    then cancel_task h.task es
    else completed (returned tt) (record h.task { future = cancel h.task.future })
