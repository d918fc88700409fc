-- ===== src/ThreadManager/Parts.antt =====
-- -- What single parts of a `ThreadManager` of src/aiodrive/modules/thread_manager.py do to a task and
-- to a future.
use aiodrive.Prelude.{
  ◌==◌, length, All, ℕ, ◌+◌, ◌≡◌, refl, ap, subst, true, false, Option, none, some, List, [], ◌∷◌,
  ◌++◌, arith,
}
use aiodrive.Asyncio.{Outcome, Future, is_done, await_done, settle, task_done, complete_task}
use aiodrive.FutureState.{FutureState, transfer, absorb_awaitable}
use aiodrive.Scope.Guaranteed.{
  GuaranteedTask, task_main, guaranteed_cancel, starts, finishes, do_guaranteed,
  request_times-future,
}
use aiodrive.ThreadManager.Steps.{System, set_task}
use aiodrive.ThreadManager.Invariant.{future_of, state_of, Inv}

module _ {A : Type 0} where
  pub cancel-future :
      (t : GuaranteedTask A) → (guaranteed_cancel t).1.parent.future ≡ t.parent.future
  unfolding guaranteed_cancel
  cancel-future t = ground arith

  pub cancel-count :
      (t : GuaranteedTask A)
      → t.parent.future ≡ Future.pending
      → (guaranteed_cancel t).1.cancellation_count ≡ t.cancellation_count + 1
  unfolding guaranteed_cancel
  cancel-count t h = ground arith

  pub starts-future :
      (t : GuaranteedTask A) → (do_guaranteed starts t).parent.future ≡ t.parent.future
  unfolding do_guaranteed task_main
  starts-future t = ground (arith, request_times-future t.cancellation_count t.parent)

  pub starts-count :
      (t : GuaranteedTask A) → (do_guaranteed starts t).cancellation_count ≡ t.cancellation_count
  unfolding do_guaranteed task_main
  starts-count t = ground arith

  pub finishes-future :
      (o : Outcome A) (t : GuaranteedTask A)
      → t.ready ≡ true
      → task_done t.parent ≡ false
      → (do_guaranteed (finishes o) t).parent.future ≡ settle o
  unfolding do_guaranteed complete_task
  finishes-future o t r h = ground arith

  settle-done : (o : Outcome A) → is_done (settle o) ≡ true
  settle-done o = ground arith

  pub await_done-settle :
      (l : Option (Outcome A)) (o : Outcome A) → await_done (future_of l) ≡ some o → l ≡ some o
  await_done-settle none o h = absurd cc
  await_done-settle (some p) o h = ap some (ground arith)

  module _ (py_none : A) where
    pub transfer-state :
        (o : Outcome A) → transfer (absorb_awaitable py_none o) Future.pending ≡ (settle o, none)
    unfolding transfer absorb_awaitable
    transfer-state o = ground arith

    pub posted_none :
        (l : Option (Outcome A)) (sts : List (FutureState A))
        → l ≡ none
        → All (λ st. some st ≡ state_of py_none l) sts
        → length sts ≡ 0
    posted_none l [] e a = refl
    posted_none none (st ∷ sts) e (h, a) = absurd cc
    posted_none (some o) (st ∷ sts) e (h, a) = absurd cc

    pub posted_empty :
        (l : Option (Outcome A)) (sts : List (FutureState A))
        → length sts ≡ 0
        → All (λ st. some st ≡ state_of py_none l) sts
    posted_empty l [] h = tt
    posted_empty l (st ∷ sts) h = absurd (omega arith)

    pub posted-append :
        (l : Option (Outcome A)) (sts : List (FutureState A)) (o : Outcome A)
        → l ≡ some o
        → All (λ st. some st ≡ state_of py_none l) sts
        → All (λ st. some st ≡ state_of py_none l) (sts ++ absorb_awaitable py_none o ∷ [])
    posted-append l [] o e a = (ground arith, tt)
    posted-append l (st ∷ sts) o e (h, a) = (h, posted-append l sts o e a)

    pub same_log :
        (id j : ℕ) (sts : List (FutureState A)) (log : ℕ → Option (Outcome A))
        → (id == j) ≡ true
        → All (λ st. some st ≡ state_of py_none (log id)) sts
        → All (λ st. some st ≡ state_of py_none (log j)) sts
    same_log id j sts log y a =
        let e : id ≡ j = ground arith in
        subst (λ k. All (λ st. some st ≡ state_of py_none (log k)) sts) e a

    pub transfer-posted :
        (l : Option (Outcome A)) (st : FutureState A) (f : Future A)
        → some st ≡ state_of py_none l
        → is_done f ≡ false
        → (transfer st f ≡ (future_of l, none)) × (is_done (future_of l) ≡ true)
    transfer-posted none st f e h = absurd cc
    transfer-posted (some o) st f e h =
        let st-is : st ≡ absorb_awaitable py_none o = cc in
        let f-is : f ≡ Future.pending = ground arith in
        (rw (st-is, f-is) (transfer-state o), settle-done o)

    -- A task that changes while its call runs.
    pub task-Inv :
        (s : System A) (id : ℕ) (t t' : GuaranteedTask A)
        → s.manager.tasks id ≡ some t
        → t'.parent.future ≡ t.parent.future
        → t'.cancellation_count ≡ t.cancellation_count
        → Inv py_none s
        → Inv py_none (record s { manager = set_task id t' s.manager })
    task-Inv s id t t' e f c inv = record {
      placed = λ j. ground (arith, inv.placed j);
      ordered = inv.ordered;
      fresh = inv.fresh;
      unborn = λ j h. ground (arith, inv.unborn j);
      inner = λ j. ground (arith, inv.inner j);
      posted = inv.posted;
      settled = inv.settled;
      counted = λ j h. ground (arith, inv.counted j);
      silent = inv.silent;
    }
