-- ===== src/Cancel.antt =====
-- src/aiodrive/modules/cancel.py, task_group.py and the function `checkpoint` of checkpoint.py. A
-- context manager is a function of how its block ends; `initial` and `final` are the cancellation
-- counts of the current task when the block begins and when it has ended.
pub mod Suppress
pub mod CancelTask
mod Tests
use aiodrive.Prelude.{ltb, if◌then◌else◌, ℕ, ◌-◌, Bool, true, false, Option, none, some, List}
use aiodrive.Asyncio.{
  Exn, cancelled_error, task_group_terminated, suppress_failure_error, group, Exns, end, more,
  is_cancelled_error, Outcome, returned, raised, Task, task_done, request,
}
use aiodrive.Shield.{Event, Awaited, asleep, resumed, Run, suspended, completed, await_task, finish}

abbrev pub Count : Type 0
Count = ℕ

module _ {ℓ} {A : Type ℓ} where
  -- An exception of the block passes through the generator.
  unfoldable pub ensure_correct_cancellation : Count → Count → Outcome A → Outcome A
  ensure_correct_cancellation initial final (returned a) =
      if ltb initial final then raised cancelled_error else returned a
  ensure_correct_cancellation initial final (raised e) = raised e

unfoldable pub checkpoint : Count → Outcome (Unit {0})
checkpoint count = if ltb 0 count then raised cancelled_error else returned tt

abbrev pub leaf : (Exn → Bool) → Exn → Option Exn
leaf matches e = if matches e then none else some e

abbrev pub regroup : Exns → Option Exn
regroup end = none
regroup (more e es) = some (group (more e es))

abbrev pub keep_some : Option Exn → Exns → Exns
keep_some none es = es
keep_some (some e) es = more e es

-- What `except*` leaves of an exception: it takes the leaves that match out of a group, at any
-- depth, and a group with no leaf left is handled. A naked exception counts as its own leaf.
unfoldable mutual
  pub unmatched : (Exn → Bool) → Exn → Option Exn
  unmatched matches (group es) = regroup (unmatched_all matches es)
  unmatched matches e = leaf matches e

  pub unmatched_all : (Exn → Bool) → Exns → Exns
  unmatched_all matches end = end
  unmatched_all matches (more e es) = keep_some (unmatched matches e) (unmatched_all matches es)

abbrev pub reraise : Option Exn → Outcome (Unit {0})
reraise none = returned tt
reraise (some e) = raised e

-- The `try` statement of `suppress`.
unfoldable pub suppress_block : (Exn → Bool) → Bool → Outcome (Unit {0}) → Outcome (Unit {0})
suppress_block matches strict (returned a) =
    if strict then raised suppress_failure_error else returned a
suppress_block matches strict (raised e) = reraise (unmatched matches e)

-- `has_loop` says whether `get_event_loop` finds a loop.
unfoldable pub suppress :
    (Exn → Bool) → Bool → Bool → Count → Count → Outcome (Unit {0}) → Outcome (Unit {0})
unfolding suppress_block ensure_correct_cancellation
suppress matches strict has_loop initial final body =
    let o = suppress_block matches strict body in
    if has_loop then ensure_correct_cancellation initial final o else o

abbrev pub is_terminated : Exn → Bool
is_terminated task_group_terminated = true
is_terminated _ = false

abbrev pub append_exn : Exns → Exn → Exns
append_exn end e = more e end
append_exn (more x xs) e = more x (append_exn xs e)

-- `asyncio.TaskGroup` at the end of its block: `errors` are the exceptions of its tasks.
abbrev pub task_group_exit : Exns → Outcome (Unit {0}) → Outcome (Unit {0})
task_group_exit end (returned a) = returned a
task_group_exit end (raised cancelled_error) = raised cancelled_error
task_group_exit end (raised e) = raised (group (more e end))
task_group_exit (more x xs) (returned a) = raised (group (more x xs))
task_group_exit (more x xs) (raised cancelled_error) = raised (group (more x xs))
task_group_exit (more x xs) (raised e) = raised (group (more x (append_exn xs e)))

-- The block of `volatile_task_group`: `yield group`, then the exception that ends the group.
abbrev pub then_terminate : Outcome (Unit {0}) → Outcome (Unit {0})
then_terminate (returned _) = raised task_group_terminated
then_terminate (raised e) = raised e

unfoldable pub volatile_task_group : Count → Count → Exns → Outcome (Unit {0}) → Outcome (Unit {0})
unfolding suppress
volatile_task_group initial final errors body =
    suppress is_terminated false true initial final (task_group_exit errors (then_terminate body))

-- `cancel_task`: the task's own cancellation count is its field `requests`.
abbrev pub uncancel : {A : Type 0} → Task A → Task A
uncancel t = record t { requests = t.requests - 1 }

-- `except CancelledError`: uncancels the task, and raises again if its count is not zero then.
abbrev pub after_cancel : Awaited (Unit {0}) → Run (Unit {0})
after_cancel (asleep t) = suspended t
after_cancel (resumed (returned a) t es) = completed (returned tt) t
after_cancel (resumed (raised e) t es) =
    if is_cancelled_error e
    then completed (if ltb 0 (uncancel t).requests then raised cancelled_error else returned tt)
        (uncancel t)
    else completed (raised e) t

unfoldable pub cancel_task : Task (Unit {0}) → List (Event (Unit {0})) → Run (Unit {0})
cancel_task t es =
    if task_done t then finish false (await_task t es) else after_cancel (await_task (request t) es)
