-- ===== src/Scope/Guaranteed.antt =====
-- src/aiodrive/modules/guaranteed_task.py: `GuaranteedTask` against the plain task that it
-- specialises. `parent` is the task as asyncio sees it.
use aiodrive.Prelude.{
  ltb, if◌then◌else◌, ℕ, zero, suc, ◌+◌, ◌-◌, ◌≡◌, refl, ap, ◌∙◌, Bool, true, false, List, [], ◌∷◌,
  arith,
}
use aiodrive.Asyncio.{
  Outcome, Future, is_done, Task, task_done, task_cancelled, request, complete_task,
}
use aiodrive.Cancel.{uncancel}

pub record GuaranteedTask (A : Type 0) : Type 0 where
  pub parent : Task A
  pub cancellation_count : ℕ
  pub ready : Bool

module _ {A : Type 0} where
  unfoldable pub new_guaranteed : GuaranteedTask A
  new_guaranteed = record {
    parent = record { future = Future.pending; requests = 0 };
    cancellation_count = 0;
    ready = false;
  }

  abbrev pub request_times : ℕ → Task A → Task A
  request_times zero t = t
  request_times (suc n) t = request_times n (request t)

  -- `task_main` up to `await awaitable`.
  unfoldable pub task_main : GuaranteedTask A → GuaranteedTask A
  task_main g = record g { ready = true; parent = request_times g.cancellation_count g.parent }

  -- `cancel`: what it returns, and the task afterwards.
  unfoldable pub guaranteed_cancel : GuaranteedTask A → Bool × GuaranteedTask A
  guaranteed_cancel g = if task_cancelled g.parent then (false, g) else (
    true,
    record g {
      cancellation_count = g.cancellation_count + 1;
      parent = if g.ready then request g.parent else g.parent;
    },
  )

  unfoldable pub guaranteed_uncancel : GuaranteedTask A → ℕ × GuaranteedTask A
  guaranteed_uncancel g =
      if ltb 0 g.cancellation_count
      then (
        g.cancellation_count - 1,
        record g {
          cancellation_count = g.cancellation_count - 1;
          parent = if g.ready then uncancel g.parent else g.parent;
        },
      )
      else (g.cancellation_count, g)

  unfoldable pub guaranteed_cancelling : GuaranteedTask A → ℕ
  guaranteed_cancelling g = g.cancellation_count

-- What happens to a task: it is asked to stop, the request is taken back, it runs for the first
-- time, or its coroutine ends.
pub data Deed (A : Type 0) : Type 0 where
  cancels uncancels starts : Deed A
  finishes : Outcome A → Deed A

module _ {A : Type 0} where
  unfoldable pub do_guaranteed : Deed A → GuaranteedTask A → GuaranteedTask A
  unfolding guaranteed_cancel guaranteed_uncancel task_main complete_task
  do_guaranteed cancels g = (guaranteed_cancel g).1
  do_guaranteed uncancels g = (guaranteed_uncancel g).1
  do_guaranteed starts g = if g.ready then g else task_main g
  do_guaranteed (finishes o) g =
      if g.ready then record g { parent = complete_task o g.parent } else g

  -- A plain task, which is done only after it has run.
  abbrev pub do_plain : Deed A → Bool × Task A → Bool × Task A
  do_plain cancels (r, t) = (r, request t)
  do_plain uncancels (r, t) = (r, uncancel t)
  do_plain starts (r, t) = (true, t)
  do_plain (finishes o) (r, t) = (r, if r then complete_task o t else t)

  unfoldable pub all_guaranteed : List (Deed A) → GuaranteedTask A → GuaranteedTask A
  unfolding do_guaranteed
  all_guaranteed [] g = g
  all_guaranteed (d ∷ ds) g = all_guaranteed ds (do_guaranteed d g)

  unfoldable pub all_plain : List (Deed A) → Bool × Task A → Bool × Task A
  all_plain [] p = p
  all_plain (d ∷ ds) p = all_plain ds (do_plain d p)

-- A task, specialised and plain, side by side.
pub record Simulates {A : Type 0} (g : GuaranteedTask A) (started : Bool) (t : Task A)
    : Type 0 where
  pub ran : g.ready ≡ started
  pub same : g.parent.future ≡ t.future
  pub unborn : started ≡ false → (t.future ≡ Future.pending) × (g.parent.requests ≡ 0)
  pub counted : task_done t ≡ false → g.cancellation_count ≡ t.requests
  pub passed : task_done t ≡ false → started ≡ true → g.parent.requests ≡ t.requests

module _ {A : Type 0} where
  request_once : (t : Task A) → (request t).future ≡ t.future
  request_once t = ground arith

  pub request_times-future : (n : ℕ) (t : Task A) → (request_times n t).future ≡ t.future
  request_times-future zero t = refl
  request_times-future (suc n) t = request_times-future n (request t) ∙ request_once t

  request_pending : (t : Task A) → task_done t ≡ false → (request t).requests ≡ t.requests + 1
  request_pending t h = ground arith

  request_times-requests :
      (n : ℕ) (t : Task A) → task_done t ≡ false → (request_times n t).requests ≡ t.requests + n
  request_times-requests zero t h = omega arith
  request_times-requests (suc n) t h =
      request_times-requests n (request t) (ap is_done (request_once t) ∙ h)
      ∙ omega (arith, request_pending t h)

  do-Simulates :
      (d : Deed A) (g : GuaranteedTask A) (r : Bool) (t : Task A)
      → Simulates g r t
      → Simulates (do_guaranteed d g) (do_plain d (r, t)).0 (do_plain d (r, t)).1
  unfolding do_guaranteed guaranteed_cancel guaranteed_uncancel task_main complete_task
  do-Simulates cancels g r t s = record {
    ran = ground arith;
    same = ground arith;
    unborn = ground arith;
    counted = ground arith;
    passed = ground arith;
  }
  do-Simulates uncancels g r t s = record {
    ran = ground arith;
    same = ground arith;
    unborn = ground arith;
    counted = ground arith;
    passed = ground arith;
  }
  do-Simulates starts g r t s = record {
    ran = ground arith;
    same = ground (arith, request_times-future g.cancellation_count g.parent);
    unborn = ground arith;
    counted = ground arith;
    passed = ground (arith, request_times-requests g.cancellation_count g.parent);
  }
  do-Simulates (finishes o) g r t s = record {
    ran = ground arith;
    same = ground arith;
    unborn = ground arith;
    counted = ground arith;
    passed = ground arith;
  }

  all-Simulates :
      (ds : List (Deed A)) (g : GuaranteedTask A) (p : Bool × Task A)
      → Simulates g p.0 p.1
      → Simulates (all_guaranteed ds g) (all_plain ds p).0 (all_plain ds p).1
  unfolding all_guaranteed all_plain
  all-Simulates [] g p s = s
  all-Simulates (d ∷ ds) g (r, t) s =
      all-Simulates ds (do_guaranteed d g) (do_plain d (r, t)) (do-Simulates d g r t s)

  abbrev pub unborn_task : Bool × Task A
  unborn_task = (false, record { future = Future.pending; requests = 0 })

  new-Simulates : Simulates new_guaranteed unborn_task.0 unborn_task.1
  unfolding new_guaranteed
  new-Simulates = record {
    ran = refl;
    same = refl;
    unborn = λ e. (refl, refl);
    counted = λ e. refl;
    passed = λ e e'. refl;
  }

  -- After any calls, runs and ends, as long as the plain task is not done: the specialised task is in
  -- the same state as the plain one and reports the same cancellation count, and asyncio has been
  -- told of none of the requests before the first run, and of all of them after it.
  pub all_guaranteed-all_plain :
      (ds : List (Deed A))
      → task_done (all_plain ds unborn_task).1 ≡ false
      → ((all_guaranteed ds new_guaranteed).parent.future ≡ (all_plain ds unborn_task).1.future)
        × (guaranteed_cancelling (all_guaranteed ds new_guaranteed)
            ≡ (all_plain ds unborn_task).1.requests)
        × ((all_guaranteed ds new_guaranteed).parent.requests
            ≡ (if (all_plain ds unborn_task).0 then (all_plain ds unborn_task).1.requests else 0))
  unfolding guaranteed_cancelling
  all_guaranteed-all_plain ds h =
      let s = all-Simulates ds new_guaranteed unborn_task new-Simulates in
      (s.same, s.counted h, ground (arith, s.unborn, s.passed))
