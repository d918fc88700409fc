-- ===== src/ThreadManager/Invariant.antt =====
-- What the steps of a `ThreadManager` of src/aiodrive/modules/thread_manager.py keep, in any order.
use aiodrive.Prelude.{
  ltb, if◌then◌else◌, length, update, All, ℕ, ◌+◌, ◌≤◌, ◌<◌, ◌≡◌, refl, sym, ap, ◌∙◌, subst, true,
  Option, none, some, List, [], ◌∷◌, arith,
}
use aiodrive.Asyncio.{Outcome, Future, is_done, settle}
use aiodrive.FutureState.{FutureState, absorb_awaitable}
use aiodrive.Scope.Guaranteed.{GuaranteedTask, new_guaranteed}
use aiodrive.ThreadManager.{
  Callback, creates, cancels_call, Manager, new_manager, call_soon_threadsafe, manager_spawn,
  manager_interrupt, manager_create,
}
use aiodrive.ThreadManager.Steps.{
  creations, cancellations, misplaced, creations-append, cancellations-append,
  misplaced-append_cancel, misplaced-append_create, System, start,
}

module _ {A : Type 0} where
  abbrev pub present : Option (GuaranteedTask A) → ℕ
  present none = 0
  present (some t) = 1

  abbrev pub requested : Option (GuaranteedTask A) → ℕ
  requested none = 0
  requested (some t) = t.cancellation_count

  abbrev pub answered : Future A → ℕ
  answered f = if is_done f then 1 else 0

  -- The future of a coroutine whose outcome may be known.
  abbrev pub future_of : Option (Outcome A) → Future A
  future_of none = Future.pending
  future_of (some o) = settle o

  abbrev pub state_of : A → Option (Outcome A) → Option (FutureState A)
  state_of py_none none = none
  state_of py_none (some o) = some (absorb_awaitable py_none o)

  abbrev pub IsInner : Option (Outcome A) → Option (GuaranteedTask A) → Type 0
  IsInner l none = Unit
  IsInner l (some t) = t.parent.future ≡ future_of l

  -- `placed`: a call waits for its creation, runs, is on its way back, or has its answer.
  pub record Inv (py_none : A) (s : System A) : Type 0 where
    pub placed :
        (id : ℕ)
        → creations id s.manager.callbacks
            + present (s.manager.tasks id)
            + length (s.manager.transfers id)
            + answered (s.manager.futures id)
          ≡ (if ltb id s.manager.next_task_id then 1 else 0)
    pub ordered : (id : ℕ) → misplaced id s.manager.callbacks ≡ 0
    pub fresh : (id : ℕ) → s.manager.next_task_id ≤ id → cancellations id s.manager.callbacks ≡ 0
    pub unborn :
        (id : ℕ)
        → present (s.manager.tasks id)
            + length (s.manager.transfers id)
            + answered (s.manager.futures id)
          ≡ 0
        → s.log id ≡ none
    pub inner : (id : ℕ) → IsInner (s.log id) (s.manager.tasks id)
    pub posted :
        (id : ℕ) → All (λ st. some st ≡ state_of py_none (s.log id)) (s.manager.transfers id)
    pub settled :
        (id : ℕ)
        → is_done (s.manager.futures id) ≡ true
        → (s.manager.futures id ≡ future_of (s.log id)) × (is_done (future_of (s.log id)) ≡ true)
    pub counted :
        (id : ℕ)
        → s.log id ≡ none
        → requested (s.manager.tasks id) + cancellations id s.manager.callbacks ≡ s.asked id
    pub silent : s.error ≡ none

  module _ (py_none : A) where
    pub start-Inv : Inv py_none start
    unfolding new_manager
    start-Inv = record {
      placed = λ id. ground arith;
      ordered = λ id. refl;
      fresh = λ id h. refl;
      unborn = λ id h. refl;
      inner = λ id. tt;
      posted = λ id. tt;
      settled = λ id h. absurd cc;
      counted = λ id h. refl;
      silent = refl;
    }

    pub spawns-Inv :
        (s : System A)
        → Inv py_none s
        → Inv py_none (record s { manager = (manager_spawn s.manager).1 })
    unfolding manager_spawn
    spawns-Inv s inv =
        let k = s.manager.next_task_id in
        record {
          placed = λ id.
              ground
                (arith, inv.placed id, creations-append id s.manager.callbacks (creates k ∷ []));
          ordered = λ id.
              misplaced-append_create id k s.manager.callbacks (inv.fresh k (omega arith))
              ∙ inv.ordered id;
          fresh = λ id h.
              ground
                (arith, inv.fresh id, cancellations-append id s.manager.callbacks (creates k ∷ []));
          unborn = λ id h. ground (arith, inv.unborn id, inv.placed id);
          inner = inv.inner;
          posted = inv.posted;
          settled = λ id h. ground (arith, inv.settled id);
          counted = λ id h.
              ground (
                arith,
                inv.counted id,
                cancellations-append id s.manager.callbacks (creates k ∷ []),
              );
          silent = inv.silent;
        }

    pub interrupts-Inv :
        (s : System A) (id : ℕ) (m : Manager A)
        → id < s.manager.next_task_id
        → manager_interrupt id s.manager ≡ some m
        → Inv py_none s
        → Inv py_none (record s { manager = m; asked = update s.asked id (s.asked id + 1) })
    unfolding manager_interrupt
    interrupts-Inv s id m h e inv =
        let m-is : m ≡ call_soon_threadsafe (cancels_call id) s.manager = ground arith in
        subst
          (λ m. Inv py_none (record s { manager = m; asked = update s.asked id (s.asked id + 1) }))
          (sym m-is)
          (record {
            placed = λ j. ground (
              arith,
              inv.placed j,
              creations-append j s.manager.callbacks (cancels_call id ∷ []),
            );
            ordered = λ j. misplaced-append_cancel j id s.manager.callbacks ∙ inv.ordered j;
            fresh = λ j h'. ground (
              arith,
              inv.fresh j,
              cancellations-append j s.manager.callbacks (cancels_call id ∷ []),
            );
            unborn = inv.unborn;
            inner = inv.inner;
            posted = inv.posted;
            settled = inv.settled;
            counted = λ j h'. ground (
              arith,
              inv.counted j,
              cancellations-append j s.manager.callbacks (cancels_call id ∷ []),
            );
            silent = inv.silent;
          })

    pub creates-Inv :
        (s : System A) (id : ℕ) (cs : List Callback)
        → s.manager.callbacks ≡ creates id ∷ cs
        → Inv py_none s
        → Inv py_none
            (record s { manager = manager_create id (record s.manager { callbacks = cs }) })
    unfolding manager_create new_guaranteed
    creates-Inv s id cs e inv =
        let c : (j : ℕ) → creations j s.manager.callbacks ≡ creations j (creates id ∷ cs) =
          λ j. ap (creations j) e in
        let k : (j : ℕ) → cancellations j s.manager.callbacks ≡ cancellations j cs =
          λ j. ap (cancellations j) e in
        let alone : s.manager.tasks id ≡ none = ground (arith, inv.placed id, c id) in
        let new : s.log id ≡ none = inv.unborn id (ground (arith, inv.placed id, c id)) in
        record {
          placed = λ j. ground (arith, inv.placed j, c j, alone);
          ordered = λ j. ap (misplaced j) (sym e) ∙ inv.ordered j;
          fresh = λ j h. ground (arith, inv.fresh j, k j);
          unborn = λ j h. ground (arith, inv.unborn j);
          inner = λ j. ground (arith, inv.inner j, new);
          posted = inv.posted;
          settled = inv.settled;
          counted = λ j h. ground (arith, inv.counted j, k j, alone);
          silent = inv.silent;
        }
