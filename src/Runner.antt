-- ===== src/Runner.antt =====
-- src/aiodrive/modules/run.py: an event loop that runs one awaitable and is closed.
pub mod Laws
mod Tests
use aiodrive.Prelude.{if◌then◌else◌, Bool, true, false, ◌&&◌, ◌||◌, Option, none, some}
use aiodrive.Asyncio.{assertion_error, runtime_error, Outcome, returned, raised}

-- An event loop: `is_base` says that it is a `BaseEventLoop`; the rest is what it is left with.
pub record EventLoop : Type 0 where
  pub is_closed : Bool
  pub is_running : Bool
  pub is_base : Bool
  pub asyncgens : Bool
  pub tasks : Bool

-- `asyncio.new_event_loop()`.
abbrev pub new_loop : EventLoop
new_loop = record {
  is_closed = false;
  is_running = false;
  is_base = true;
  asyncgens = false;
  tasks = false;
}

-- The loop when the awaitable has ended: whether generators and tasks are left.
abbrev pub leaves_behind : Bool → Bool → EventLoop → EventLoop
leaves_behind gens tasks l = record l { asyncgens = gens; tasks = tasks }

-- `_cancel_all_tasks`.
abbrev pub cancel_all_tasks : EventLoop → EventLoop
cancel_all_tasks l = record l { tasks = false }

-- `shutdown_asyncgens` and what follows it.
abbrev pub close_generators : EventLoop → EventLoop
close_generators l = cancel_all_tasks (record l { asyncgens = false })

module _ {A : Type 0} where
  -- The check of the tasks, with the outcome that it leaves or replaces.
  unfoldable pub check_tasks : Bool → EventLoop → Outcome A → Outcome A × EventLoop
  check_tasks enforce l o =
      if l.tasks then (if enforce then raised runtime_error else o, cancel_all_tasks l) else (o, l)

  -- The inner `finally` clause, where `shutdown` is what shutting the executor down comes to.
  unfoldable pub shut_down :
      Bool → Outcome (Unit {0}) → EventLoop → Outcome A → Outcome A × EventLoop
  unfolding check_tasks
  shut_down enforce (raised e) l o = (raised e, l)
  shut_down enforce (returned u) l o =
      if l.is_base && l.asyncgens
      then (if enforce
          then (raised runtime_error, close_generators l)
          else check_tasks enforce (close_generators l) o)
      else check_tasks enforce l o

  -- The `try` statements of `run`, on an awaitable that comes to `o` and leaves generators and tasks
  -- behind or not; the loop is closed in the end.
  unfoldable pub run_in :
      Bool → EventLoop → Outcome A → Bool → Bool → Outcome (Unit {0}) → Outcome A × EventLoop
  unfolding shut_down
  run_in enforce l o gens tasks shutdown =
      let (o', l') = shut_down enforce shutdown (leaves_behind gens tasks l) o in
      (o', record l' { is_closed = true })

  -- `run`, in the given loop, if there is one, which must be neither closed nor running.
  unfoldable pub run :
      Bool → Option EventLoop → Outcome A → Bool → Bool → Outcome (Unit {0}) → Outcome A × EventLoop
  unfolding run_in
  run enforce none o gens tasks shutdown = run_in enforce new_loop o gens tasks shutdown
  run enforce (some l) o gens tasks shutdown =
      if l.is_closed || l.is_running
      then (raised assertion_error, l)
      else run_in enforce l o gens tasks shutdown
