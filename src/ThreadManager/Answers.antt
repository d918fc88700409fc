-- ===== src/ThreadManager/Answers.antt =====
-- What the calls of `ThreadManager.spawn` in src/aiodrive/modules/thread_manager.py get.
use aiodrive.Prelude.{
  length, ℕ, ◌+◌, ◌<◌, ◌≡◌, refl, ap, true, false, Option, none, some, List, [], ◌∷◌, arith,
}
use aiodrive.Asyncio.{Outcome, Future, is_done, settle, task_done}
use aiodrive.Scope.Guaranteed.{GuaranteedTask, starts, do_guaranteed}
use aiodrive.ThreadManager.{Callback, creates, cancels_call, run_callback}
use aiodrive.ThreadManager.Steps.{
  creations, cancellations, System, spawns, interrupts, runs, starts_call, ends_call, ends_task,
  delivers, Reach, here, next,
}
use aiodrive.ThreadManager.Invariant.{
  future_of, Inv, start-Inv, spawns-Inv, interrupts-Inv, creates-Inv,
}
use aiodrive.ThreadManager.Parts.{starts-future, starts-count, task-Inv}
use aiodrive.ThreadManager.Kept.{cancels-Inv, ends_call-Inv, ends_task-Inv, delivers-Inv}

module _ {A : Type 0} (py_none : A) where
  run_callback-Inv :
      (c : Callback) (s : System A) (cs : List Callback)
      → s.manager.callbacks ≡ c ∷ cs
      → Inv py_none s
      → Inv py_none (record s { manager = run_callback c (record s.manager { callbacks = cs }) })
  unfolding run_callback
  run_callback-Inv (creates id) s cs e inv = creates-Inv py_none s id cs e inv
  run_callback-Inv (cancels_call id) s cs e inv = cancels-Inv py_none s id cs e inv

  Reach-Inv : {s : System A} → Reach py_none s → Inv py_none s
  Reach-Inv here = start-Inv py_none
  Reach-Inv (next {s} r spawns) = spawns-Inv py_none s (Reach-Inv r)
  Reach-Inv (next {s} r (interrupts id m h e)) = interrupts-Inv py_none s id m h e (Reach-Inv r)
  Reach-Inv (next {s} r (runs c cs e)) = run_callback-Inv c s cs e (Reach-Inv r)
  Reach-Inv (next {s} r (starts_call id t e)) =
      task-Inv py_none s id t (do_guaranteed starts t) e (starts-future t) (starts-count t)
        (Reach-Inv r)
  Reach-Inv (next {s} r (ends_call id t o e h d)) =
      ends_call-Inv py_none s id t o e h d (Reach-Inv r)
  Reach-Inv (next {s} r (ends_task id t o e a)) = ends_task-Inv py_none s id t o e a (Reach-Inv r)
  Reach-Inv (next {s} r (delivers id st sts e)) = delivers-Inv py_none s id st sts e (Reach-Inv r)

  known :
      (l : Option (Outcome A)) (f : Future A)
      → f ≡ future_of l
      → is_done (future_of l) ≡ true
      → (o : Outcome A) × (l ≡ some o) × (f ≡ settle o)
  known none f e h = absurd cc
  known (some o) f e h = (o, refl, e)

  -- Whatever calls are made and cancelled, and in whatever order the callbacks, the coroutines and
  -- the deliveries run: nothing is raised by a delivery, and a future that is done is that of the
  -- outcome with which the coroutine of its own call has ended.
  pub Reach-answered :
      {s : System A}
      → Reach py_none s
      → (id : ℕ) → is_done (s.manager.futures id) ≡ true
      → (s.error ≡ none)
        × ((o : Outcome A) × (s.log id ≡ some o) × (s.manager.futures id ≡ settle o))
  Reach-answered {s} r id h =
      let inv = Reach-Inv r in
      let (f, d) = inv.settled id h in (inv.silent, known (s.log id) (s.manager.futures id) f d)

  -- No call is forgotten: once the thread's loop has run what was scheduled, and neither a task nor
  -- a transfer of a call is left, the call's coroutine has ended and its future has the outcome.
  pub Reach-settled :
      {s : System A}
      → Reach py_none s
      → (id : ℕ) → id < s.manager.next_task_id
      → s.manager.callbacks ≡ []
      → s.manager.tasks id ≡ none
      → s.manager.transfers id ≡ []
      → (o : Outcome A) × (s.log id ≡ some o) × (s.manager.futures id ≡ settle o)
  Reach-settled {s} r id h c t p =
      let inv = Reach-Inv r in
      let c' : creations id s.manager.callbacks ≡ 0 = ap (creations id) c in
      let p' : length (s.manager.transfers id) ≡ 0 = ap length p in
      let d : is_done (s.manager.futures id) ≡ true = ground (arith, inv.placed id) in
      (Reach-answered r id d).1

  -- No cancellation overtakes the creation of its task or is lost: the task of a call that has not
  -- ended counts all the cancellations that `spawn` has passed on, but for those that are scheduled.
  pub Reach-asked :
      {s : System A}
      → Reach py_none s
      → (id : ℕ) (t : GuaranteedTask A) → s.manager.tasks id ≡ some t
      → task_done t.parent ≡ false
      → t.cancellation_count + cancellations id s.manager.callbacks ≡ s.asked id
  Reach-asked {s} r id t e d = let inv = Reach-Inv r in ground (arith, inv.counted id, inv.inner id)
