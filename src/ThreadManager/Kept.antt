-- ===== src/ThreadManager/Kept.antt =====
-- The steps of a `ThreadManager` of src/aiodrive/modules/thread_manager.py that act on a task.
use aiodrive.Prelude.{
  ◌==◌, Bool-cases, Option-cases, length, update, All, length-append, ℕ, ◌≡◌, ap, subst, inl, inr,
  true, false, none, some, List, [], ◌∷◌, ◌++◌, arith,
}
use aiodrive.Asyncio.{Outcome, is_done, await_done, task_done}
use aiodrive.FutureState.{FutureState, transfer, absorb_awaitable}
use aiodrive.Scope.Guaranteed.{GuaranteedTask, finishes, do_guaranteed}
use aiodrive.ThreadManager.{Callback, cancels_call, manager_cancel, create_task_end}
use aiodrive.ThreadManager.Steps.{
  creations, cancellations, misplaced, System, first_error, set_task, delivered,
}
use aiodrive.ThreadManager.Invariant.{state_of, Inv}
use aiodrive.ThreadManager.Parts.{
  cancel-future, cancel-count, finishes-future, await_done-settle, posted_none, posted_empty,
  posted-append, same_log, transfer-posted,
}

module _ {A : Type 0} (py_none : A) where
  -- A request that finds no task comes after its call's end.
  absent-logged :
      (s : System A) (id : ℕ) (cs : List Callback)
      → s.manager.callbacks ≡ cancels_call id ∷ cs
      → s.manager.tasks id ≡ none
      → s.log id ≡ none
      → Inv py_none s
      → ⊥
  absent-logged s id cs e none_yet l inv =
      let m : misplaced id s.manager.callbacks ≡ misplaced id (cancels_call id ∷ cs) =
        ap (misplaced id) e in
      let c : creations id s.manager.callbacks ≡ creations id cs = ap (creations id) e in
      let k : cancellations id s.manager.callbacks ≡ cancellations id (cancels_call id ∷ cs) =
        ap (cancellations id) e in
      let back = posted_none py_none (s.log id) (s.manager.transfers id) l (inv.posted id) in
      ground (arith, inv.placed id, inv.ordered id, inv.settled id, inv.fresh id)

  pub cancels-Inv :
      (s : System A) (id : ℕ) (cs : List Callback)
      → s.manager.callbacks ≡ cancels_call id ∷ cs
      → Inv py_none s
      → Inv py_none (record s { manager = manager_cancel id (record s.manager { callbacks = cs }) })
  unfolding manager_cancel
  cancels-Inv s id cs e inv =
      let c : (j : ℕ) → creations j s.manager.callbacks ≡ creations j cs =
        λ j. ap (creations j) e in
      let k : (j : ℕ)
          → cancellations j s.manager.callbacks ≡ cancellations j (cancels_call id ∷ cs) =
        λ j. ap (cancellations j) e in
      let m : (j : ℕ) → misplaced j s.manager.callbacks ≡ misplaced j (cancels_call id ∷ cs) =
        λ j. ap (misplaced j) e in
      elim (Option-cases (s.manager.tasks id)) [
        | inl n ↦ rw n (record {
          placed = λ j. ground (arith, inv.placed j, c j);
          ordered = λ j. ground (arith, inv.ordered j, m j);
          fresh = λ j h. ground (arith, inv.fresh j, k j);
          unborn = inv.unborn;
          inner = inv.inner;
          posted = inv.posted;
          settled = inv.settled;
          counted = λ j h. ground (arith, inv.counted j, k j, absent-logged s id cs e n);
          silent = inv.silent;
        })
        | inr (t, y) ↦ rw y (record {
          placed = λ j. ground (arith, inv.placed j, c j);
          ordered = λ j. ground (arith, inv.ordered j, m j);
          fresh = λ j h. ground (arith, inv.fresh j, k j);
          unborn = λ j h. ground (arith, inv.unborn j);
          inner = λ j. ground (arith, inv.inner j, cancel-future t);
          posted = inv.posted;
          settled = inv.settled;
          counted = λ j h. ground (arith, inv.counted j, inv.inner j, k j, cancel-count t);
          silent = inv.silent;
        })
      ]

  pub ends_call-Inv :
      (s : System A) (id : ℕ) (t : GuaranteedTask A) (o : Outcome A)
      → s.manager.tasks id ≡ some t
      → t.ready ≡ true
      → task_done t.parent ≡ false
      → Inv py_none s
      → Inv py_none (record s {
        manager = set_task id (do_guaranteed (finishes o) t) s.manager;
        log = update s.log id (some o);
      })
  ends_call-Inv s id t o e r d inv =
      let f = finishes-future o t r d in
      record {
        placed = λ j. ground (arith, inv.placed j);
        ordered = inv.ordered;
        fresh = inv.fresh;
        unborn = λ j h. ground (arith, inv.unborn j, inv.placed j);
        inner = λ j. ground (arith, inv.inner j);
        posted = λ j. elim (Bool-cases (id == j)) [
          | inl y ↦
              rw y (
                posted_empty py_none (some o) (s.manager.transfers j)
                  (ground (arith, inv.placed j)))
          | inr n ↦ rw n (inv.posted j)
        ];
        settled = λ j h. ground (arith, inv.settled j, inv.placed j, inv.placed id);
        counted = λ j h. ground (arith, inv.counted j);
        silent = inv.silent;
      }

  pub ends_task-Inv :
      (s : System A) (id : ℕ) (t : GuaranteedTask A) (o : Outcome A)
      → s.manager.tasks id ≡ some t
      → await_done t.parent.future ≡ some o
      → Inv py_none s
      → Inv py_none (record s { manager = create_task_end py_none id o s.manager })
  unfolding create_task_end
  ends_task-Inv s id t o e a inv =
      let l : s.log id ≡ some o = await_done-settle (s.log id) o (ground (arith, inv.inner id)) in
      record {
        placed = λ j. ground (
          arith,
          inv.placed j,
          length-append (s.manager.transfers id) (absorb_awaitable py_none o ∷ []),
        );
        ordered = inv.ordered;
        fresh = inv.fresh;
        unborn = λ j h. ground (
          arith,
          inv.unborn j,
          length-append (s.manager.transfers id) (absorb_awaitable py_none o ∷ []),
        );
        inner = λ j. ground (arith, inv.inner j);
        posted = λ j. elim (Bool-cases (id == j)) [
          | inl y ↦ rw y (
              same_log py_none id j (s.manager.transfers id ++ absorb_awaitable py_none o ∷ [])
                s.log y
                (posted-append py_none (s.log id) (s.manager.transfers id) o l (inv.posted id)))
          | inr n ↦ rw n (inv.posted j)
        ];
        settled = inv.settled;
        counted = λ j h. ground (arith, inv.counted j);
        silent = inv.silent;
      }

  pub delivers-Inv :
      (s : System A) (id : ℕ) (st : FutureState A) (sts : List (FutureState A))
      → s.manager.transfers id ≡ st ∷ sts
      → Inv py_none s
      → Inv py_none (record s {
        manager = delivered id st sts s.manager;
        error = first_error s.error (transfer st (s.manager.futures id)).1;
      })
  delivers-Inv s id st sts e inv =
      let all : All (λ st. some st ≡ state_of py_none (s.log id)) (st ∷ sts) =
        subst (All (λ st. some st ≡ state_of py_none (s.log id))) e (inv.posted id) in
      let n : length (s.manager.transfers id) ≡ length (st ∷ sts) = ap length e in
      let w : is_done (s.manager.futures id) ≡ false = ground (arith, inv.placed id) in
      let (t, d) = transfer-posted py_none (s.log id) st (s.manager.futures id) all.0 w in
      rw t (record {
        placed = λ j. ground (arith, inv.placed j);
        ordered = inv.ordered;
        fresh = inv.fresh;
        unborn = λ j h. ground (arith, inv.unborn j);
        inner = inv.inner;
        posted = λ j. elim (Bool-cases (id == j)) [
          | inl y ↦ rw y (same_log py_none id j sts s.log y all.1)
          | inr n ↦ rw n (inv.posted j)
        ];
        settled = λ j h. ground (arith, inv.settled j);
        counted = inv.counted;
        silent = ground (arith, inv.silent);
      })
