-- ===== src/ThreadManager/Steps.antt =====
-- A `ThreadManager` of src/aiodrive/modules/thread_manager.py with any number of calls, on whose
-- thread no exit has begun: the steps of the calling loops and of the thread's.
use aiodrive.Prelude.{
  ◌==◌, if◌then◌else◌, update, ℕ, ◌+◌, ◌<◌, ◌≡◌, true, false, Option, none, some, List, [], ◌∷◌,
  ◌++◌, arith,
}
use aiodrive.Asyncio.{Exn, Outcome, await_done, task_done}
use aiodrive.FutureState.{FutureState, transfer}
use aiodrive.Scope.Guaranteed.{GuaranteedTask, starts, finishes, do_guaranteed}
use aiodrive.ThreadManager.{
  Callback, creates, cancels_call, Manager, new_manager, manager_spawn, manager_interrupt,
  run_callback, create_task_end,
}

abbrev pub creations : ℕ → List Callback → ℕ
creations id [] = 0
creations id (creates k ∷ cs) = (if k == id then 1 else 0) + creations id cs
creations id (cancels_call k ∷ cs) = creations id cs

abbrev pub cancellations : ℕ → List Callback → ℕ
cancellations id [] = 0
cancellations id (creates k ∷ cs) = cancellations id cs
cancellations id (cancels_call k ∷ cs) = (if k == id then 1 else 0) + cancellations id cs

-- How many pairs of a cancellation and a later creation of the same call there are.
abbrev pub misplaced : ℕ → List Callback → ℕ
misplaced id [] = 0
misplaced id (creates k ∷ cs) = misplaced id cs
misplaced id (cancels_call k ∷ cs) = (if k == id then creations id cs else 0) + misplaced id cs

pub creations-append :
    (id : ℕ) (cs ds : List Callback) → creations id (cs ++ ds) ≡ creations id cs + creations id ds
creations-append id [] ds = omega arith
creations-append id (creates k ∷ cs) ds = omega (arith, creations-append id cs ds)
creations-append id (cancels_call k ∷ cs) ds = creations-append id cs ds

pub cancellations-append :
    (id : ℕ) (cs ds : List Callback)
    → cancellations id (cs ++ ds) ≡ cancellations id cs + cancellations id ds
cancellations-append id [] ds = omega arith
cancellations-append id (creates k ∷ cs) ds = cancellations-append id cs ds
cancellations-append id (cancels_call k ∷ cs) ds = omega (arith, cancellations-append id cs ds)

pub misplaced-append_cancel :
    (id k : ℕ) (cs : List Callback) → misplaced id (cs ++ cancels_call k ∷ []) ≡ misplaced id cs
misplaced-append_cancel id k [] = ground arith
misplaced-append_cancel id k (creates j ∷ cs) = misplaced-append_cancel id k cs
misplaced-append_cancel id k (cancels_call j ∷ cs) =
    ground (arith, misplaced-append_cancel id k cs, creations-append id cs (cancels_call k ∷ []))

pub misplaced-append_create :
    (id k : ℕ) (cs : List Callback)
    → cancellations k cs ≡ 0
    → misplaced id (cs ++ creates k ∷ []) ≡ misplaced id cs
misplaced-append_create id k [] h = ground arith
misplaced-append_create id k (creates j ∷ cs) h = misplaced-append_create id k cs h
misplaced-append_create id k (cancels_call j ∷ cs) h =
    let rest = misplaced-append_create id k cs (ground arith) in
    ground (arith, rest, creations-append id cs (creates k ∷ []))

-- `log` holds how the coroutine of each call has ended, and `asked` how many cancellations its
-- `spawn` has passed on; `error` is the first exception that a delivery has raised.
pub record System (A : Type 0) : Type 0 where
  pub manager : Manager A
  pub log : ℕ → Option (Outcome A)
  pub asked : ℕ → ℕ
  pub error : Option Exn

abbrev pub first_error : Option Exn → Option Exn → Option Exn
first_error none x = x
first_error (some e) x = some e

module _ {A : Type 0} where
  abbrev pub start : System A
  unfolding new_manager
  start = record { manager = new_manager; log = λ id. none; asked = λ id. 0; error = none }

  abbrev pub set_task : ℕ → GuaranteedTask A → Manager A → Manager A
  set_task id t m = record m { tasks = update m.tasks id (some t) }

  abbrev pub delivered : ℕ → FutureState A → List (FutureState A) → Manager A → Manager A
  delivered id st sts m = record m {
    transfers = update m.transfers id sts;
    futures = update m.futures id (transfer st (m.futures id)).0;
  }

  module _ (py_none : A) where
    pub data Step (s : System A) : System A → Type 0 where
      spawns : Step s (record s { manager = (manager_spawn s.manager).1 })
      interrupts :
          (id : ℕ) (m : Manager A)
          → id < s.manager.next_task_id
          → manager_interrupt id s.manager ≡ some m
          → Step s (record s { manager = m; asked = update s.asked id (s.asked id + 1) })
      runs :
          (c : Callback) (cs : List Callback)
          → s.manager.callbacks ≡ c ∷ cs
          → Step s (record s { manager = run_callback c (record s.manager { callbacks = cs }) })
      -- The coroutine of a call begins, and ends.
      starts_call :
          (id : ℕ) (t : GuaranteedTask A)
          → s.manager.tasks id ≡ some t
          → Step s (record s { manager = set_task id (do_guaranteed starts t) s.manager })
      ends_call :
          (id : ℕ) (t : GuaranteedTask A) (o : Outcome A)
          → s.manager.tasks id ≡ some t
          → t.ready ≡ true
          → task_done t.parent ≡ false
          → Step s (record s {
            manager = set_task id (do_guaranteed (finishes o) t) s.manager;
            log = update s.log id (some o);
          })
      ends_task :
          (id : ℕ) (t : GuaranteedTask A) (o : Outcome A)
          → s.manager.tasks id ≡ some t
          → await_done t.parent.future ≡ some o
          → Step s (record s { manager = create_task_end py_none id o s.manager })
      -- `transfer` runs in the loop of a call.
      delivers :
          (id : ℕ) (st : FutureState A) (sts : List (FutureState A))
          → s.manager.transfers id ≡ st ∷ sts
          → Step s (record s {
            manager = delivered id st sts s.manager;
            error = first_error s.error (transfer st (s.manager.futures id)).1;
          })

    pub data Reach : System A → Type 0 where
      here : Reach start
      next : {s s' : System A} → Reach s → Step s s' → Reach s'
