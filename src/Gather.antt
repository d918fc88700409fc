-- ===== src/Gather.antt =====
-- src/aiodrive/modules/gather.py: `gather` as a state machine. It is suspended in one of its two
-- calls of `asyncio.wait`; its tasks complete, its own task is cancelled (`interrupt`), and the
-- event loop resumes it (`wake`). What a task does about a cancellation request is its own affair.
pub mod Verdict
pub mod Runs
pub mod Schedule
mod Tests
use aiodrive.Prelude.{
  if◌then◌else◌, any, all, ℕ, zero, suc, Bool, true, false, ◌||◌, List, [], ◌∷◌, map,
}
use aiodrive.Asyncio.{
  Exn, cancelled_error, group, exns, Outcome, returned, raised, Future, pending, finished, Task,
  task_done, task_cancelled, request, result, complete_task,
}

pub data Phase {ℓ} (A : Type ℓ) : Type ℓ where
  first_exception all_completed : Phase A
  done : Outcome (List A) → Phase A

pub record Gather {ℓ} (A : Type ℓ) : Type ℓ where
  pub tasks : List (Task A)
  pub cancelled : Bool
  pub failed : Bool
  pub phase : Phase A

module _ {ℓ} {A : Type ℓ} where
  abbrev pub has_exception : Future A → Bool
  has_exception (Future.failed e) = true
  has_exception _ = false

  -- The list of the exceptions of the tasks that were not cancelled.
  unfoldable pub exceptions : List (Task A) → List Exn
  exceptions [] = []
  exceptions (t ∷ ts) = elim t.future [
    | Future.pending ↦ exceptions ts
    | Future.cancelled ↦ exceptions ts
    | Future.failed e ↦ e ∷ exceptions ts
    | Future.finished a ↦ exceptions ts
  ]

  abbrev cons_outcome : Outcome A → Outcome (List A) → Outcome (List A)
  cons_outcome (raised e) _ = raised e
  cons_outcome (returned a) (raised e) = raised e
  cons_outcome (returned a) (returned vs) = returned (a ∷ vs)

  -- `tuple(task.result() for task in tasks)`.
  unfoldable pub results : List (Task A) → Outcome (List A)
  results [] = returned []
  results (t ∷ ts) = cons_outcome (result t.future) (results ts)

  -- What follows the last wait.
  unfoldable pub verdict : Bool → List (Task A) → Outcome (List A)
  unfolding exceptions results
  verdict cancelled ts = elim (exceptions ts) [
    | e ∷ es ↦ raised (group (exns (e ∷ es)))
    | [] ↦ if cancelled || any task_cancelled ts then raised cancelled_error else results ts
  ]

  unfoldable pub start : Bool → List (Task A) → Gather A
  start sensitive [] = record {
    tasks = [];
    cancelled = false;
    failed = false;
    phase = done (returned []);
  }
  start sensitive (t ∷ ts) = record {
    tasks = t ∷ ts;
    cancelled = false;
    failed = false;
    phase = if sensitive then first_exception else all_completed;
  }

  -- `asyncio.wait` with FIRST_EXCEPTION and with ALL_COMPLETED, on tasks that are not none.
  abbrev pub first_exception_over : List (Task A) → Bool
  first_exception_over ts = any (λ t. has_exception t.future) ts || all task_done ts

  abbrev pub all_completed_over : List (Task A) → Bool
  all_completed_over = all task_done

  -- `failed`, over the tasks that are done.
  abbrev pub any_failed : List (Task A) → Bool
  any_failed = any (λ t. task_cancelled t || has_exception t.future)

  wake_phase : Phase A → Gather A → Gather A
  wake_phase first_exception g =
      if first_exception_over g.tasks
      then record g {
        failed = any_failed g.tasks;
        tasks = if any_failed g.tasks then map request g.tasks else g.tasks;
        phase = all_completed;
      }
      else g
  wake_phase all_completed g =
      if all_completed_over g.tasks
      then record g { phase = done (verdict g.cancelled g.tasks) }
      else g
  wake_phase (done o) g = g

  -- The event loop resumes `gather` if its wait is over.
  unfoldable pub wake : Gather A → Gather A
  unfolding wake_phase
  wake g = wake_phase g.phase g

  interrupt_phase : Phase A → Gather A → Gather A
  interrupt_phase first_exception g = record g {
    cancelled = true;
    failed = false;
    tasks = map request g.tasks;
    phase = all_completed;
  }
  interrupt_phase all_completed g = record g {
    cancelled = true;
    failed = false;
    tasks = if g.failed then g.tasks else map request g.tasks;
  }
  interrupt_phase (done o) g = g

  -- The task that runs `gather` is cancelled: its wait raises `CancelledError`.
  unfoldable pub interrupt : Gather A → Gather A
  unfolding interrupt_phase
  interrupt g = interrupt_phase g.phase g

  unfoldable pub complete_at : ℕ → Outcome A → List (Task A) → List (Task A)
  unfolding complete_task
  complete_at i o [] = []
  complete_at zero o (t ∷ ts) = complete_task o t ∷ ts
  complete_at (suc i) o (t ∷ ts) = t ∷ complete_at i o ts

  -- The coroutine of task `i` ends so.
  unfoldable pub complete : ℕ → Outcome A → Gather A → Gather A
  unfolding complete_at
  complete i o g = record g { tasks = complete_at i o g.tasks }
