-- ===== src/Contexts.antt =====
-- src/aiodrive/modules/concurrent_contexts.py: the managers are entered by one `gather`, and those
-- that were entered are left by another one inside `cleaned_up`. Managers are numbered in order.
pub mod Entered
mod Tests
use aiodrive.Prelude.{
  if◌then◌else◌, get_elem?, ℕ, Bool, true, false, not, ◌&&◌, Option, none, some, List, [], ◌∷◌,
  ◌++◌,
}
use aiodrive.Asyncio.{Outcome, returned, raised, Task, task_done}
use aiodrive.Gather.{Gather, complete, wake, interrupt}
use aiodrive.Gather
use aiodrive.Gather.Schedule.{Event, completes, interrupts, wakes}

pub record Contexts (A : Type 0) : Type 0 where
  pub entering : Gather A
  pub open_managers : List ℕ

module _ {A : Type 0} where
  -- `gather(enter_context(manager) for manager in effective_managers)`.
  unfoldable pub enter_contexts : List (Task A) → Contexts A
  enter_contexts ts = record { entering = Gather.start true ts; open_managers = [] }

  abbrev pub is_pending : Option (Task A) → Bool
  is_pending none = false
  is_pending (some t) = not (task_done t)

  abbrev pub is_returned : Outcome A → Bool
  is_returned (returned v) = true
  is_returned (raised e) = false

  -- The `__aenter__` of a manager ends, if its task still runs; if it returns, the manager is open.
  unfoldable pub enter_context : ℕ → Outcome A → Contexts A → Contexts A
  enter_context i o c = record {
    entering = complete i o c.entering;
    open_managers =
        if is_pending (get_elem? c.entering.tasks i) && is_returned o
        then c.open_managers ++ i ∷ []
        else c.open_managers;
  }

  -- What happens while the managers are entered.
  unfoldable pub step : Event A → Contexts A → Contexts A
  unfolding enter_context
  step (completes i o) c = enter_context i o c
  step interrupts c = record c { entering = interrupt c.entering }
  step wakes c = record c { entering = wake c.entering }

  unfoldable pub run : List (Event A) → Contexts A → Contexts A
  unfolding step
  run [] c = c
  run (e ∷ es) c = run es (step e c)

  -- The managers whose `__aexit__` `exit_contexts` calls.
  unfoldable pub exit_contexts : Contexts A → List ℕ
  exit_contexts c = c.open_managers
