-- ===== src/Gather/Runs.antt =====
-- Whole runs of src/aiodrive/modules/gather.py, over any schedule.
use aiodrive.Prelude.{
  ltb, any, all, All, ◌+◌, ◌≡◌, refl, ap, ◌∙◌, Bool, true, false, List, [], ◌∷◌, map, arith,
}
use aiodrive.Asyncio.{Outcome, Task, task_done, request}
use aiodrive.Gather.{
  first_exception, all_completed, done, Gather, has_exception, verdict, start, any_failed, wake,
}
use aiodrive.Gather.Schedule.{
  Event, flag, noted_flag, run, is_over, interruptions, IsFresh, Requested, Requested-request,
  Requested-eq, start-Inv, run-Inv,
}

module _ {A : Type 0} where
  -- For tasks that have received no cancellation request yet: whatever completes, is cancelled and
  -- is resumed in whatever order, once `gather` is over every task is done, and its outcome is the
  -- verdict on these tasks, where what counts as a cancellation of `gather` is that one came at all.
  pub run-done :
      (sensitive : Bool) (ts : List (Task A)) (es : List (Event A)) {o : Outcome (List A)}
      → All IsFresh ts
      → (run es (start sensitive ts)).phase ≡ done o
      → (all task_done (run es (start sensitive ts)).tasks ≡ true)
        × (o
            ≡ verdict
                (ltb 0 (interruptions es (start sensitive ts)))
                (run es (start sensitive ts)).tasks)
  run-done sensitive ts es {o} h e =
      let v = run-Inv es 0 (start sensitive ts) (start-Inv sensitive ts h) in
      let (d, q) = v.settled o e in
      (
        d,
        q
            ∙ ap (λ c. verdict c (run es (start sensitive ts)).tasks)
                (noted_flag (run es (start sensitive ts)).cancelled _ v.noted),
      )

  -- For tasks that have received no cancellation request yet: while `gather` is not over, each
  -- pending task has received one request for each cancellation of `gather`, and one more exactly
  -- while the failure of a task is the last thing that `gather` reacted to.
  pub run-Requested :
      (sensitive : Bool) (ts : List (Task A)) (es : List (Event A))
      → All IsFresh ts
      → is_over (run es (start sensitive ts)).phase ≡ false
      → Requested
          (interruptions es (start sensitive ts) + flag (run es (start sensitive ts)).failed)
          (run es (start sensitive ts)).tasks
  run-Requested sensitive ts es h p =
      Requested-eq _ (omega arith)
        ((run-Inv es 0 (start sensitive ts) (start-Inv sensitive ts h)).requested p)

  map-request_done : (ts : List (Task A)) → all task_done ts ≡ true → map request ts ≡ ts
  map-request_done [] h = refl
  map-request_done (t ∷ ts) h = ground (arith, map-request_done ts)

  -- Once every task is done, a `gather` that is not over ends within two resumptions, with the
  -- verdict on the tasks.
  pub wake-wake :
      (g : Gather A)
      → all task_done g.tasks ≡ true
      → is_over g.phase ≡ false
      → (wake (wake g)).phase ≡ done (verdict g.cancelled g.tasks)
  unfolding wake
  wake-wake g d p = ground (arith, map-request_done g.tasks d)

  any_failed_of_exception :
      (ts : List (Task A)) → any (λ t. has_exception t.future) ts ≡ true → any_failed ts ≡ true
  any_failed_of_exception [] h = h
  any_failed_of_exception (t ∷ ts) h = ground (arith, any_failed_of_exception ts)

  wake_failed :
      (g : Gather A)
      → g.phase ≡ first_exception
      → any (λ t. has_exception t.future) g.tasks ≡ true
      → wake g ≡ record g { failed = true; tasks = map request g.tasks; phase = all_completed }
  unfolding wake
  wake_failed g e x = ground (arith, any_failed_of_exception g.tasks x)

  -- While a sensitive `gather` waits for the first exception and some task has failed, being resumed
  -- asks each pending task to stop, once, and `gather` goes on to wait for all of them.
  pub wake_fails_fast :
      (ts : List (Task A)) (es : List (Event A))
      → All IsFresh ts
      → (run es (start true ts)).phase ≡ first_exception
      → any (λ t. has_exception t.future) (run es (start true ts)).tasks ≡ true
      → let g = wake (run es (start true ts)) in
        (g.phase ≡ all_completed) × (g.failed ≡ true) × Requested 1 g.tasks
  wake_fails_fast ts es h e x =
      let g = run es (start true ts) in
      let v = run-Inv es 0 (start true ts) (start-Inv true ts h) in
      let (calm, unfailed) = v.untouched e in
      let due : Requested 0 g.tasks =
        Requested-eq g.tasks (ground arith) (v.requested (ground arith)) in
      rw (wake_failed g e x) (refl, refl, Requested-request 0 g.tasks due)
