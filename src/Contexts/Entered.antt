-- ===== src/Contexts/Entered.antt =====
-- Which managers concurrent_contexts of src/aiodrive/modules/concurrent_contexts.py leaves.
use aiodrive.Prelude.{
  count, count-append, ◌==◌, if◌then◌else◌, Bool-cases, get_elem?, all, All, ℕ, zero, suc, ◌+◌, ◌≡◌,
  refl, sym, ap, ◌∙◌, inl, inr, true, false, not, ◌&&◌, List, [], ◌∷◌, map, arith,
}
use aiodrive.Asyncio.{
  cancelled_error, Outcome, returned, raised, Future, pending, failed, finished, is_done, settle,
  Task, task_done, request, complete_task,
}
use aiodrive.Gather.{done, Gather, any_failed, wake, interrupt, complete_at}
use aiodrive.Gather
use aiodrive.Gather.Runs
use aiodrive.Gather.Schedule
use aiodrive.Gather.Schedule.{Event, completes, interrupts, wakes, IsFresh}
use aiodrive.Gather.Runs.{run-done}
use aiodrive.Contexts.{
  Contexts, enter_contexts, is_pending, is_returned, enter_context, step, run, exit_contexts,
}

module _ {A : Type 0} where
  -- 1 if the manager was entered.
  abbrev pub entered : Future A → ℕ
  entered (finished v) = 1
  entered _ = 0

  abbrev pub entered_at : ℕ → List (Task A) → ℕ
  entered_at i [] = 0
  entered_at zero (t ∷ ts) = entered t.future
  entered_at (suc i) (t ∷ ts) = entered_at i ts

  entered_at-request :
      (i : ℕ) (ts : List (Task A)) → entered_at i (map request ts) ≡ entered_at i ts
  entered_at-request i [] = refl
  entered_at-request zero (t ∷ ts) = ground arith
  entered_at-request (suc i) (t ∷ ts) = entered_at-request i ts

  entered_at-wake : (i : ℕ) (g : Gather A) → entered_at i (wake g).tasks ≡ entered_at i g.tasks
  unfolding wake
  entered_at-wake i g = elim (Bool-cases (any_failed g.tasks)) [
    | inl t ↦ ground (arith, entered_at-request i g.tasks)
    | inr n ↦ ground arith
  ]

  entered_at-interrupt :
      (i : ℕ) (g : Gather A) → entered_at i (interrupt g).tasks ≡ entered_at i g.tasks
  unfolding interrupt
  entered_at-interrupt i g = ground (arith, entered_at-request i g.tasks)

  entered-settle : (o : Outcome A) → is_returned o ≡ false → entered (settle o) ≡ 0
  entered-settle (returned v) h = cc
  entered-settle (raised cancelled_error) h = refl
  entered-settle (raised _) h = refl

  entered_pending : (f : Future A) → is_done f ≡ false → entered f ≡ 0
  entered_pending pending h = refl
  entered_pending Future.cancelled h = refl
  entered_pending (failed e) h = refl
  entered_pending (finished v) h = cc

  entered-complete_task :
      (o : Outcome A) (t : Task A)
      → entered (complete_task o t).future
        ≡ entered t.future + (if not (task_done t) && is_returned o then 1 else 0)
  unfolding complete_task
  entered-complete_task (returned v) t = ground (arith, entered_pending t.future)
  entered-complete_task (raised e) t =
      ground (arith, entered_pending t.future, entered-settle (raised e) refl)

  entered_at-complete_at :
      (i j : ℕ) (o : Outcome A) (ts : List (Task A))
      → entered_at j (complete_at i o ts)
        ≡ entered_at j ts
          + (if (i == j) && (is_pending (get_elem? ts i) && is_returned o) then 1 else 0)
  unfolding complete_at complete_task
  entered_at-complete_at i j o [] = ground arith
  entered_at-complete_at zero zero o (t ∷ ts) = entered-complete_task o t
  entered_at-complete_at zero (suc j) o (t ∷ ts) = ground arith
  entered_at-complete_at (suc i) zero o (t ∷ ts) = ground arith
  entered_at-complete_at (suc i) (suc j) o (t ∷ ts) = entered_at-complete_at i j o ts ∙ ground arith

  -- Each manager that was entered is in the list once, and no other is.
  abbrev IsCounted : Contexts A → Type 0
  IsCounted c = (j : ℕ) → count j c.open_managers ≡ entered_at j c.entering.tasks

  step-IsCounted : (e : Event A) (c : Contexts A) → IsCounted c → IsCounted (step e c)
  unfolding step enter_context Gather.complete
  step-IsCounted (completes i o) c h = λ j. ground (
    arith,
    h j,
    entered_at-complete_at i j o c.entering.tasks,
    count-append j c.open_managers (i ∷ []),
  )
  step-IsCounted interrupts c h = λ j. h j ∙ sym (entered_at-interrupt j c.entering)
  step-IsCounted wakes c h = λ j. h j ∙ sym (entered_at-wake j c.entering)

  run-IsCounted : (es : List (Event A)) (c : Contexts A) → IsCounted c → IsCounted (run es c)
  unfolding run
  run-IsCounted [] c h = h
  run-IsCounted (e ∷ es) c h = run-IsCounted es (step e c) (step-IsCounted e c h)

  step-entering : (e : Event A) (c : Contexts A) → (step e c).entering ≡ Schedule.step e c.entering
  unfolding step enter_context Schedule.step
  step-entering (completes i o) c = refl
  step-entering interrupts c = refl
  step-entering wakes c = refl

  run-entering :
      (es : List (Event A)) (c : Contexts A) → (run es c).entering ≡ Schedule.run es c.entering
  unfolding run Schedule.run
  run-entering [] c = refl
  run-entering (e ∷ es) c = run-entering es (step e c) ∙ ap (Schedule.run es) (step-entering e c)

  -- A task that has just been created.
  abbrev pub IsNew : Task A → Type 0
  IsNew t = (t.requests ≡ 0) × (t.future ≡ pending)

  IsNew-IsFresh : (ts : List (Task A)) → All IsNew ts → All IsFresh ts
  IsNew-IsFresh [] h = h
  IsNew-IsFresh (t ∷ ts) (n, h) = (n.0, IsNew-IsFresh ts h)

  entered_at-new : (j : ℕ) (ts : List (Task A)) → All IsNew ts → entered_at j ts ≡ 0
  entered_at-new j [] h = refl
  entered_at-new zero (t ∷ ts) (n, h) = ap entered n.1
  entered_at-new (suc j) (t ∷ ts) (n, h) = entered_at-new j ts h

  start_tasks : (ts : List (Task A)) → (Gather.start true ts).tasks ≡ ts
  unfolding Gather.start
  start_tasks [] = refl
  start_tasks (t ∷ ts) = refl

  -- Whatever managers enter, fail or are cancelled in whatever order: once the `gather` that enters
  -- them is over, however it ends, the `__aenter__` of each manager has ended, and `exit_contexts`
  -- leaves each manager that was entered exactly once and no other.
  pub exit_contexts-entered :
      (ts : List (Task A)) (es : List (Event A)) {o : Outcome (List A)}
      → All IsNew ts
      → (run es (enter_contexts ts)).entering.phase ≡ Gather.done o
      → (all task_done (run es (enter_contexts ts)).entering.tasks ≡ true)
        × ((j : ℕ)
            → count j (exit_contexts (run es (enter_contexts ts)))
              ≡ entered_at j (run es (enter_contexts ts)).entering.tasks)
  unfolding enter_contexts exit_contexts
  exit_contexts-entered ts es {o} h p =
      let c : Contexts A = record { entering = Gather.start true ts; open_managers = [] } in
      let q = run-entering es c in
      let (d, v) =
        Runs.run-done true ts es {o = o} (IsNew-IsFresh ts h) (ap (λ g. g.phase) (sym q) ∙ p) in
      (
        ap (λ g. all task_done g.tasks) q ∙ d,
        run-IsCounted es c (λ j. sym (ap (entered_at j) (start_tasks ts) ∙ entered_at-new j ts h)),
      )
