-- ===== src/Race.antt =====
-- src/aiodrive/modules/race.py: `race` as a state machine over the one of `gather`. The winner is
-- any task that is done when `race` is resumed: the order of the set `done_tasks` is not known.
pub mod Laws
mod Tests
use aiodrive.Prelude.{if◌then◌else◌, get_elem?, ℕ, false, Option, none, some, List, [], ◌∷◌, map}
use aiodrive.Asyncio.{
  cancelled_error, assertion_error, Outcome, returned, raised, Task, task_done, request, result,
}
use aiodrive.Gather.{first_exception, all_completed, done, Gather, complete_at}
use aiodrive.Gather

pub data Stage {ℓ} (A : Type ℓ) : Type ℓ where
  racing : Stage A
  -- The winner's place and result are kept while the losers are gathered.
  draining : ℕ → Outcome A → Gather A → Stage A
  -- `race` was cancelled, and all tasks are gathered.
  aborting : Gather A → Stage A
  over : Outcome (ℕ × A) → Stage A

pub record Race {ℓ} (A : Type ℓ) : Type ℓ where
  pub tasks : List (Task A)
  pub stage : Stage A

module _ {ℓ} {A : Type ℓ} where
  -- The awaitables must be at least one.
  unfoldable pub start : List (Task A) → Race A
  start [] = record { tasks = []; stage = over (raised assertion_error) }
  start (t ∷ ts) = record { tasks = t ∷ ts; stage = racing }

  unfoldable pub pending_tasks : List (Task A) → List (Task A)
  pending_tasks [] = []
  pending_tasks (t ∷ ts) = if task_done t then pending_tasks ts else t ∷ pending_tasks ts

  -- `tasks.index(winning_task), winning_task.result()`.
  abbrev pub returns : ℕ → Outcome A → Outcome (ℕ × A)
  returns i (returned a) = returned (i, a)
  returns i (raised e) = raised e

  -- Goes on after `await gather(pending_tasks, sensitive=False)`.
  abbrev pub drained : ℕ → Outcome A → Gather A → Stage A
  drained i o g = elim g.phase [
    | first_exception ↦ draining i o g
    | all_completed ↦ draining i o g
    | done (raised e) ↦ over (raised e)
    | done (returned vs) ↦ over (returns i o)
  ]

  -- Goes on after `await gather(tasks, sensitive=False)`, before `raise`.
  abbrev pub aborted : Gather A → Stage A
  aborted g = elim g.phase [
    | first_exception ↦ aborting g
    | all_completed ↦ aborting g
    | done (raised e) ↦ over (raised e)
    | done (returned vs) ↦ over (raised cancelled_error)
  ]

  -- The task at `i`, if it is done, wins, and the losers are cancelled and gathered.
  abbrev elect : ℕ → Option (Task A) → List (Task A) → Stage A
  elect i none ts = racing
  elect i (some t) ts =
      if task_done t
      then drained i (result t.future) (Gather.start false (map request (pending_tasks ts)))
      else racing

  wake_stage : ℕ → Stage A → List (Task A) → Stage A
  wake_stage i racing ts = elect i (get_elem? ts i) ts
  wake_stage i (draining w o g) ts = drained w o (Gather.wake g)
  wake_stage i (aborting g) ts = aborted (Gather.wake g)
  wake_stage i (over r) ts = over r

  -- The event loop resumes `race`; `i` is the place of the first element of `done_tasks`.
  unfoldable pub wake : ℕ → Race A → Race A
  unfolding wake_stage
  wake i r = record r { stage = wake_stage i r.stage r.tasks }

  interrupt_stage : Stage A → List (Task A) → Stage A
  interrupt_stage racing ts = aborted (Gather.start false (map request ts))
  interrupt_stage (draining w o g) ts = draining w o (Gather.interrupt g)
  interrupt_stage (aborting g) ts = aborting (Gather.interrupt g)
  interrupt_stage (over r) ts = over r

  -- The task that runs `race` is cancelled.
  unfoldable pub interrupt : Race A → Race A
  unfolding interrupt_stage
  interrupt r = record r { stage = interrupt_stage r.stage r.tasks }

  complete_stage : ℕ → Outcome A → Race A → Race A
  complete_stage i o r = elim r.stage [
    | racing ↦ record r { tasks = complete_at i o r.tasks }
    | draining w p g ↦ record r { stage = draining w p (Gather.complete i o g) }
    | aborting g ↦ record r { stage = aborting (Gather.complete i o g) }
    | over q ↦ r
  ]

  -- The coroutine of a task ends; `i` counts the tasks that `race` is waiting for.
  unfoldable pub complete : ℕ → Outcome A → Race A → Race A
  unfolding complete_stage
  complete i o r = complete_stage i o r
