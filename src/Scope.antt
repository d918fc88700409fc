-- ===== src/Scope.antt =====
-- src/aiodrive/modules/scope.py, handle_signal of signals.py, and contextualize.py. The state is
-- the cancellation count of the current task with the scopes that are open; a context manager is
-- a function of how its block ends.
pub mod Guaranteed
pub mod Laws
pub mod Signals
pub mod Background
mod Tests
use aiodrive.Prelude.{
  ◌==◌, if◌then◌else◌, ℕ, zero, suc, ◌+◌, ◌-◌, Bool, true, false, not, Option, none, some, List,
}
use aiodrive.Asyncio.{
  Exn, cancelled_error, runtime_error, signal_handled, group, end, more, is_cancelled_error,
  Outcome, returned, raised, Future, pending, cancelled, failed, finished, Effect, and_then, Task,
}
use aiodrive.Shield.{Event, Run, suspended, completed, spinning}
use aiodrive.Cancel.{cancel_task}

-- `entered` says that the field `task` is not `None`.
pub record Scope : Type 0 where
  pub cancellation_count : ℕ
  pub entered : Bool

-- A scope and the count of its task.
pub record Scoped : Type 0 where
  pub scope : Scope
  pub requests : ℕ

-- `Scope.cancel`: the count of the task is raised first.
unfoldable pub scope_cancel : Scoped → Effect Scoped
scope_cancel s =
    if s.scope.entered
    then (
      record {
        scope = record s.scope { cancellation_count = s.scope.cancellation_count + 1 };
        requests = s.requests + 1;
      },
      none,
    )
    else (s, some runtime_error)

unfoldable pub enter_scope : ℕ → Scoped
enter_scope requests = record {
  scope = record { cancellation_count = 0; entered = true };
  requests = requests;
}

-- The `for` loop of calls of `Task.uncancel`, which stops at zero.
abbrev pub uncancel_times : ℕ → ℕ → ℕ
uncancel_times zero requests = requests
uncancel_times (suc n) requests = uncancel_times n (requests - 1)

abbrev pub leave : Scoped → Scoped
leave s = record s { scope = record s.scope { entered = false } }

-- `use_scope` from the end of its block on.
-- The `except` clause: takes back the scope's cancellations, and raises again if others are left.
abbrev pub take_back : Scoped → Outcome (Unit {0}) × Scoped
take_back s =
    let requests = uncancel_times s.scope.cancellation_count s.requests in
    (
      if requests == 0 then returned tt else raised cancelled_error,
      leave (record s { requests = requests }),
    )

-- `use_scope` from the end of its block on.
unfoldable pub use_scope : Scoped → Outcome (Unit {0}) → Outcome (Unit {0}) × Scoped
use_scope s (returned a) = (returned a, leave s)
use_scope s (raised e) = if is_cancelled_error e then take_back s else (raised e, leave s)

-- `handle_signal`: the scope, and the last code that was handled.
pub record Handler : Type 0 where
  pub scoped : Scoped
  pub exited : Bool
  pub handled_signal_code : Option ℕ

unfoldable pub enter_handler : ℕ → Handler
unfolding enter_scope
enter_handler requests = record {
  scoped = enter_scope requests;
  exited = false;
  handled_signal_code = none;
}

-- `callback`; an error of the scope would leave the code stored.
unfoldable pub on_signal : ℕ → Handler → Effect Handler
unfolding scope_cancel
on_signal code h =
    let h' : Handler = record h { handled_signal_code = some code } in
    if not h.exited
    then and_then (scope_cancel h.scoped) (λ s. (record h' { scoped = s }, none)) (λ s. h')
    else (h', none)

-- The scope's own outcome first, then the exception for the last signal, if there was one.
abbrev pub after_scope : Option ℕ → Outcome (Unit {0}) → Outcome (Unit {0})
after_scope _ (raised e) = raised e
after_scope none (returned a) = returned a
after_scope (some code) (returned a) = raised (signal_handled code)

unfoldable pub handle_signal : Handler → Outcome (Unit {0}) → Outcome (Unit {0}) × Handler
unfolding use_scope
handle_signal h body = (
  after_scope h.handled_signal_code (use_scope h.scoped body).0,
  record h { scoped = (use_scope h.scoped body).1; exited = true },
)

-- The done callback of `contextualize`: `scope` is cancelled if the background task failed.
unfoldable pub background_done : Task (Unit {0}) → Scoped → Effect Scoped
unfolding scope_cancel
background_done t s = elim t.future [
  | Future.failed e ↦ scope_cancel s
  | Future.pending ↦ (s, none)
  | Future.cancelled ↦ (s, none)
  | Future.finished a ↦ (s, none)
]

-- The three clauses after the block: what is raised once `cancel_task` has completed.
abbrev pub join_cancelled : Outcome (Unit {0}) → Outcome (Unit {0})
join_cancelled (returned _) = raised cancelled_error
join_cancelled (raised e) = raised e

abbrev pub join_raised : Exn → Outcome (Unit {0}) → Outcome (Unit {0})
join_raised e (returned _) = raised e
join_raised e (raised e') = raised (group (more e (more e' end)))

abbrev pub join : Outcome (Unit {0}) → Outcome (Unit {0}) → Outcome (Unit {0})
join (returned _) o = o
join (raised e) o = if is_cancelled_error e then join_cancelled o else join_raised e o

abbrev pub after_join : Outcome (Unit {0}) → Run (Unit {0}) → Run (Unit {0})
after_join body (completed o t) = completed (join body o) t
after_join body (suspended t) = suspended t
after_join body spinning = spinning

-- `contextualize` from the end of its block on, with the background task as it is then.
unfoldable pub contextualize :
    Scoped → Outcome (Unit {0}) → Task (Unit {0}) → List (Event (Unit {0})) → Run (Unit {0})
unfolding use_scope cancel_task
contextualize s body t es = after_join (use_scope s body).0 (cancel_task t es)
