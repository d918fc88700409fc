-- ===== src/Awaitables/Laws.antt =====
-- What `terminate` of src/aiodrive/modules/awaitable.py leaves.
use aiodrive.Prelude.{
  Bool-cases, ℕ, ◌+◌, ◌≡◌, refl, ap, ◌∙◌, inl, inr, Bool, true, false, none, some, List, [], ◌∷◌,
  arith,
}
use aiodrive.Asyncio.{
  is_cancelled_error, Outcome, returned, raised, Future, is_done, cancel, await_done, Task,
  task_done, request, complete_task,
}
use aiodrive.Cancel.{
  ensure_correct_cancellation, unmatched, reraise, suppress_block, suppress, after_cancel,
  cancel_task,
}
use aiodrive.Cancel.Suppress.{ensure-same}
use aiodrive.Shield.{Event, cancels, ends, resumed, await_pending, await_task, finish}
use aiodrive.Awaitables.{
  Terminable, coroutine, task, future, another, Terminated, sleeping, terminated, of_run,
  await_cancelled, terminate,
}

abbrev pub all_done : Terminated → Bool
all_done sleeping = true
all_done (terminated o none) = true
all_done (terminated o (some f)) = is_done f

cancel-done : (f : Future (Unit {0})) → is_done (cancel f) ≡ true
cancel-done f = ground arith

complete-done :
    (o : Outcome (Unit {0})) (t : Task (Unit {0})) → is_done (complete_task o t).future ≡ true
unfolding complete_task
complete-done o t = ground arith

after_cancel_done :
    (o : Outcome (Unit {0})) (t : Task (Unit {0})) (es : List (Event (Unit {0})))
    → is_done t.future ≡ true
    → all_done (of_run (after_cancel (resumed o t es))) ≡ true
after_cancel_done (returned u) t es h = h
after_cancel_done (raised e) t es h = ground arith

finish_done :
    (t : Task (Unit {0})) (es : List (Event (Unit {0})))
    → is_done t.future ≡ true
    → all_done (of_run (finish false (await_task t es))) ≡ true
unfolding await_task
finish_done t es h = ground arith

await_pending_done :
    (t : Task (Unit {0})) (es : List (Event (Unit {0})))
    → all_done (of_run (after_cancel (await_pending t es))) ≡ true
unfolding await_pending
await_pending_done t [] = refl
await_pending_done t (cancels ∷ es) = await_pending_done (request t) es
await_pending_done t (ends o ∷ es) = after_cancel_done o (complete_task o t) es (complete-done o t)

await_task-await_pending :
    (t : Task (Unit {0})) (es : List (Event (Unit {0})))
    → t.future ≡ Future.pending
    → await_task t es ≡ await_pending t es
unfolding await_task
await_task-await_pending t es e =
    ap (λ f. elim (await_done f) [ none ↦ await_pending t es | some o ↦ resumed o t es ]) e

await_task_done :
    (t : Task (Unit {0})) (es : List (Event (Unit {0})))
    → is_done t.future ≡ false
    → all_done (of_run (after_cancel (await_task t es))) ≡ true
await_task_done t es h =
    ap (λ w. all_done (of_run (after_cancel w))) (await_task-await_pending t es (ground arith))
    ∙ await_pending_done t es

-- Once `terminate` has completed, however it did and whatever happened meanwhile, a task or a future
-- that it was called on is done.
pub terminate_done :
    (final : ℕ) (x : Terminable) (es : List (Event (Unit {0})))
    → all_done (terminate final x es) ≡ true
unfolding terminate cancel_task await_task
terminate_done final (coroutine closing) es = refl
terminate_done final (task t) es = elim (Bool-cases (task_done t)) [
  | inl y ↦ rw y (finish_done t es y)
  | inr n ↦ rw n (await_task_done (record t { requests = t.requests + 1 }) es n)
]
terminate_done final (future f) es = cancel-done f
terminate_done final (another o) es = refl

-- A pending future is cancelled without an error; of one that is done, an exception is raised.
pub terminate_future :
    (final : ℕ) (f : Future (Unit {0})) (es : List (Event (Unit {0})))
    → terminate final (future f) es ≡ elim f [
      | Future.pending ↦ terminated (returned tt) (some Future.cancelled)
      | Future.cancelled ↦ terminated (returned tt) (some Future.cancelled)
      | Future.failed e ↦
          terminated (reraise (unmatched is_cancelled_error e)) (some (Future.failed e))
      | Future.finished u ↦ terminated (returned u) (some (Future.finished u))
    ]
unfolding terminate suppress suppress_block ensure_correct_cancellation unmatched
terminate_future final f es =
    rw (ensure-same final (suppress_block is_cancelled_error false (await_cancelled (cancel f))))
      (ground arith)
