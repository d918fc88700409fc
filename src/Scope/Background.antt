-- ===== src/Scope/Background.antt =====
-- What `contextualize` of src/aiodrive/modules/contextualize.py raises.
use aiodrive.Prelude.{if◌then◌else◌, ℕ, ◌≡◌, ap, ◌∙◌, false, List, arith}
use aiodrive.Asyncio.{
  Exn, cancelled_error, group, end, more, is_cancelled_error, Outcome, returned, raised,
}
use aiodrive.Shield.{Event, completed, await_task}
use aiodrive.Shield.Waiting.{after_cancels, pending_task, ended_task}
use aiodrive.Cancel.CancelTask.{cancel_task-after_cancels}
use aiodrive.Cancel.{cancel_task}
use aiodrive.Scope.{Scoped, use_scope, background_done, after_join, contextualize}

-- A background task that failed is never forgotten. However often the scope and the task have been
-- cancelled, what is raised is the exception of the background task alone if the block returns or
-- ends as cancelled, and the group of both exceptions, the block's first, if it ends otherwise.
pub contextualize-failed :
    (s : Scoped) (body : Outcome (Unit {0})) (q : ℕ) (e : Exn) (es : List (Event (Unit {0})))
    → is_cancelled_error e ≡ false
    → contextualize
        (background_done (ended_task q (raised e)) s).0
        body
        (ended_task q (raised e))
        es
      ≡ completed
          (elim body [
            | returned _ ↦ raised e
            | raised b ↦
                if is_cancelled_error b then raised e else raised (group (more b (more e end)))
          ])
          (ended_task q (raised e))
unfolding contextualize background_done use_scope cancel_task await_task
contextualize-failed s body q e es h = ground arith

-- A background task that nobody has cancelled and that obeys its cancellation leaves no trace:
-- it is asked to stop, it is over when `contextualize` completes, and the outcome is that of the
-- scope.
pub contextualize-obedient :
    (s : Scoped) (body : Outcome (Unit {0})) (es : List (Event (Unit {0})))
    → contextualize s body (pending_task 0) (after_cancels 0 (raised cancelled_error) es)
      ≡ completed (use_scope s body).0 (ended_task 0 (raised cancelled_error))
unfolding contextualize
contextualize-obedient s body es =
    ap (after_join (use_scope s body).0) (cancel_task-after_cancels 0 0 (raised cancelled_error) es)
    ∙ ground arith
