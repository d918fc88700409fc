-- ===== src/Awaitables.antt =====
-- src/aiodrive/modules/awaitable.py: `possibly_await` and `terminate`.
pub mod Laws
mod Tests
use aiodrive.Prelude.{count, true, false, Option, none, some, List}
use aiodrive.Asyncio.{
  cancelled_error, is_cancelled_error, Outcome, returned, raised, Future, cancel, await_done, Task,
}
use aiodrive.Cancel.{Count, suppress, cancel_task}
use aiodrive.Shield.{Event, Run, suspended, completed, spinning}

-- An object that may be awaitable: one that is comes to an outcome.
pub data Object (A : Type 0) : Type 0 where
  awaitable : Outcome A → Object A
  plain : A → Object A

unfoldable pub possibly_await : {A : Type 0} → Object A → Outcome A
possibly_await (awaitable o) = o
possibly_await (plain a) = returned a

-- The kinds of awaitables that `terminate` tells apart: a coroutine with what closing it comes to,
-- and any other with what awaiting it comes to.
pub data Terminable : Type 0 where
  coroutine : Outcome (Unit {0}) → Terminable
  task : Task (Unit {0}) → Terminable
  future : Future (Unit {0}) → Terminable
  another : Outcome (Unit {0}) → Terminable

-- What the calling coroutine comes to, and the target afterwards, where it is known; `sleeping`
-- while it awaits a task.
pub data Terminated : Type 0 where
  sleeping : Terminated
  terminated : Outcome (Unit {0}) → Option (Future (Unit {0})) → Terminated

abbrev pub of_run : Run (Unit {0}) → Terminated
of_run (suspended t) = sleeping
of_run spinning = sleeping
of_run (completed o t) = terminated o (some t.future)

-- A future is done once it has been cancelled.
abbrev pub await_cancelled : Future (Unit {0}) → Outcome (Unit {0})
await_cancelled f = elim (await_done f) [ none ↦ raised cancelled_error | some o ↦ o ]

-- `terminate`, in a task with that many cancellation requests.
unfoldable pub terminate : Count → Terminable → List (Event (Unit {0})) → Terminated
unfolding cancel_task suppress
terminate count (coroutine closing) es = terminated closing none
terminate count (task t) es = of_run (cancel_task t es)
terminate count (future f) es =
    terminated (suppress is_cancelled_error false true count count (await_cancelled (cancel f)))
      (some (cancel f))
terminate count (another o) es = terminated o none
