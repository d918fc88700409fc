-- ===== src/Race/Laws.antt =====
-- What src/aiodrive/modules/race.py returns and raises.
use aiodrive.Gather
use aiodrive.Prelude.{
  get_elem?, ℕ, ◌≡◌, refl, ap, ◌∙◌, true, false, some, List, [], ◌∷◌, map, arith,
}
use aiodrive.Asyncio.{Exn, Outcome, returned, raised, Future, Task, task_done, request, result}
use aiodrive.Gather.{Phase, first_exception, all_completed, done, Gather}
use aiodrive.Gather.Schedule.{Event, completes, interrupts, wakes, step, run, is_over}
use aiodrive.Race.{
  Stage, racing, draining, over, Race, start, pending_tasks, returns, drained, wake, interrupt,
  complete,
}

module _ {A : Type 0} where
  abbrev pub move : Event A → Race A → Race A
  move (completes i o) r = complete i o r
  move interrupts r = interrupt r
  move wakes r = wake 0 r

  -- Moves of the tasks, of the task of `race` and of the loop; the first element of a set of tasks
  -- is asked for only once, and not by these.
  unfoldable pub moves : List (Event A) → Race A → Race A
  moves [] r = r
  moves (e ∷ es) r = moves es (move e r)

  move_drained :
      (e : Event A) (ts : List (Task A)) (w : ℕ) (o : Outcome A) (g : Gather A) (p : Phase A)
      → g.phase ≡ p
      → move e (record { tasks = ts; stage = drained w o g })
        ≡ record { tasks = ts; stage = drained w o (step e g) }
  unfolding wake interrupt complete step Gather.wake Gather.interrupt Gather.complete
  move_drained (completes i q) ts w o g first_exception h = ground arith
  move_drained (completes i q) ts w o g all_completed h = ground arith
  move_drained (completes i q) ts w o g (done (returned vs)) h = ground arith
  move_drained (completes i q) ts w o g (done (raised e)) h = ground arith
  move_drained interrupts ts w o g first_exception h = ground arith
  move_drained interrupts ts w o g all_completed h = ground arith
  move_drained interrupts ts w o g (done (returned vs)) h = ground arith
  move_drained interrupts ts w o g (done (raised e)) h = ground arith
  move_drained wakes ts w o g first_exception h = ground arith
  move_drained wakes ts w o g all_completed h = ground arith
  move_drained wakes ts w o g (done (returned vs)) h = ground arith
  move_drained wakes ts w o g (done (raised e)) h = ground arith

  moves_drained :
      (es : List (Event A)) (ts : List (Task A)) (w : ℕ) (o : Outcome A) (g : Gather A)
      → moves es (record { tasks = ts; stage = drained w o g })
        ≡ record { tasks = ts; stage = drained w o (run es g) }
  unfolding moves run
  moves_drained [] ts w o g = refl
  moves_drained (e ∷ es) ts w o g =
      ap (moves es) (move_drained e ts w o g g.phase refl) ∙ moves_drained es ts w o (step e g)

  abbrev drained_at : ℕ → Outcome A → Gather A → Phase A → Stage A
  drained_at i o g p = elim p [
    | first_exception ↦ draining i o g
    | all_completed ↦ draining i o g
    | done (raised e) ↦ over (raised e)
    | done (returned vs) ↦ over (returns i o)
  ]

  drained_open :
      (i : ℕ) (o : Outcome A) (g : Gather A)
      → is_over g.phase ≡ false
      → drained i o g ≡ draining i o g
  drained_open i o g h = ground arith

  wake-elect :
      (r : Race A) (i : ℕ) (t : Task A)
      → r.stage ≡ racing
      → get_elem? r.tasks i ≡ some t
      → task_done t ≡ true
      → wake i r ≡ record {
        tasks = r.tasks;
        stage =
            drained i (result t.future) (Gather.start false (map request (pending_tasks r.tasks)));
      }
  unfolding wake
  wake-elect r i t s p d = ground arith

  -- When `race` is resumed while it waits for the first task, and finds the task at `i` done: it
  -- then gathers the tasks that are pending, each after a request to stop, and ends exactly when
  -- this ends, whatever happens meanwhile. If gathering them raises, `race` raises the same; if
  -- not, it returns `i` with the value of the task at `i`, or raises what that one raised.
  pub moves-wake :
      (before es : List (Event A)) (ts : List (Task A)) (i : ℕ) (t : Task A)
      → let r = moves before (start ts) in
        r.stage ≡ racing
        → get_elem? r.tasks i ≡ some t
        → task_done t ≡ true
        → let g = run es (Gather.start false (map request (pending_tasks r.tasks))) in
          let s = (moves es (wake i r)).stage in
          (is_over g.phase ≡ false → s ≡ draining i (result t.future) g)
          × ((e : Exn) → g.phase ≡ done (raised e) → s ≡ over (raised e))
          × ((vs : List A) (a : A)
              → g.phase ≡ done (returned vs)
              → t.future ≡ Future.finished a
              → s ≡ over (returned (i, a)))
          × ((vs : List A) (e : Exn)
              → g.phase ≡ done (returned vs)
              → t.future ≡ Future.failed e
              → s ≡ over (raised e))
  moves-wake before es ts i t s p d =
      let r = moves before (start ts) in
      let g = run es (Gather.start false (map request (pending_tasks r.tasks))) in
      let q : (moves es (wake i r)).stage ≡ drained i (result t.future) g =
        ap (λ x. (moves es x).stage) (wake-elect r i t s p d)
        ∙ ap (λ x. x.stage)
            (moves_drained es r.tasks i (result t.future)
              (Gather.start false (map request (pending_tasks r.tasks)))) in
      (
        λ h. q ∙ drained_open i (result t.future) g h,
        λ e h. q ∙ ap (drained_at i (result t.future) g) h,
        λ vs a h f. q ∙ (λ j. drained_at i (result (f j)) g (h j)),
        λ vs e h f. q ∙ (λ j. drained_at i (result (f j)) g (h j)),
      )
