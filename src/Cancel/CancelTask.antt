-- ===== src/Cancel/CancelTask.antt =====
-- How `cancel_task` of src/aiodrive/modules/cancel.py ends.
use aiodrive.Prelude.{ltb, if◌then◌else◌, ℕ, ◌+◌, ◌≡◌, ap, ◌∙◌, List, arith}
use aiodrive.Asyncio.{cancelled_error, is_cancelled_error, Outcome, returned, raised}
use aiodrive.Shield.{Event, completed, await_task}
use aiodrive.Shield.Waiting.{after_cancels, pending_task, ended_task, await_pending-after_cancels}
use aiodrive.Cancel.{after_cancel, cancel_task}

pub cancel_task-after_cancels :
    (r k : ℕ) (o : Outcome (Unit {0})) (es : List (Event (Unit {0})))
    → cancel_task (pending_task r) (after_cancels k o es) ≡ elim o [
      | returned a ↦ completed (returned tt) (ended_task (r + 1 + k) (returned a))
      | raised e ↦
          if is_cancelled_error e
          then completed
              (if ltb 0 (r + k) then raised cancelled_error else returned tt)
              (ended_task (r + k) (raised e))
          else completed (raised e) (ended_task (r + 1 + k) (raised e))
    ]
unfolding cancel_task await_task
cancel_task-after_cancels r k o es =
    ap after_cancel (await_pending-after_cancels k (r + 1) o es) ∙ ground arith
