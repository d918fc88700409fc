-- ===== src/Gather/Schedule.antt =====
-- The transitions of src/aiodrive/modules/gather.py in any order, and what they keep.
use aiodrive.Prelude.{
  ltb, if◌then◌else◌, Bool-cases, all, All, ℕ, zero, suc, ◌+◌, ◌≡◌, refl, ◌↔◌, inl, inr, Bool, true,
  false, List, [], ◌∷◌, map, arith,
}
use aiodrive.Asyncio.{Outcome, is_done, Task, task_done, request}
use aiodrive.Gather.{
  Phase, first_exception, all_completed, done, Gather, verdict, start, first_exception_over,
  all_completed_over, any_failed, wake, interrupt, complete_at, complete,
}

pub data Event (A : Type 0) : Type 0 where
  completes : ℕ → Outcome A → Event A
  interrupts wakes : Event A

abbrev pub flag : Bool → ℕ
flag true = 1
flag false = 0

pub noted_flag : (c : Bool) (n : ℕ) → (c ≡ false) ↔ (0 + n ≡ 0) → c ≡ ltb 0 n
noted_flag true n h = ground (arith, h.1)
noted_flag false n h = ground (arith, h.0 refl)

module _ {A : Type 0} where
  unfoldable pub step : Event A → Gather A → Gather A
  step (completes i o) g = complete i o g
  step interrupts g = interrupt g
  step wakes g = wake g

  unfoldable pub run : List (Event A) → Gather A → Gather A
  run [] g = g
  run (e ∷ es) g = run es (step e g)

  abbrev pub is_over : Phase A → Bool
  is_over (done o) = true
  is_over _ = false

  -- The cancellations that reached `gather` before it was over.
  unfoldable pub interruptions : List (Event A) → Gather A → ℕ
  interruptions [] g = 0
  interruptions (completes i o ∷ es) g = interruptions es (step (completes i o) g)
  interruptions (interrupts ∷ es) g =
      (if is_over g.phase then 0 else 1) + interruptions es (step interrupts g)
  interruptions (wakes ∷ es) g = interruptions es (step wakes g)

  -- A task that has not been asked to stop.
  abbrev pub IsFresh : Task A → Type 0
  IsFresh t = t.requests ≡ 0

  -- Each task that is still pending has received `n` requests.
  abbrev pub Requested : ℕ → List (Task A) → Type 0
  Requested n = All (λ t. is_done t.future ≡ false → t.requests ≡ n)

  -- `own` counts the cancellations of `gather` so far.
  pub record Inv (own : ℕ) (g : Gather A) : Type 0 where
    pub requested : is_over g.phase ≡ false → Requested (own + flag g.failed) g.tasks
    pub untouched : g.phase ≡ first_exception → (own ≡ 0) × (g.failed ≡ false)
    pub settled :
        (o : Outcome (List A))
        → g.phase ≡ done o
        → (all task_done g.tasks ≡ true) × (o ≡ verdict g.cancelled g.tasks)
    pub noted : (g.cancelled ≡ false) ↔ (own ≡ 0)

  pub Requested-request :
      (n : ℕ) (ts : List (Task A)) → Requested n ts → Requested (n + 1) (map request ts)
  Requested-request n [] h = tt
  Requested-request n (t ∷ ts) h = (λ p. ground (arith, h.0), Requested-request n ts h.1)

  Requested-complete :
      (n i : ℕ) (o : Outcome A) (ts : List (Task A))
      → Requested n ts
      → Requested n (complete_at i o ts)
  unfolding complete_at
  Requested-complete n i o [] h = tt
  Requested-complete n zero o (t ∷ ts) h = (λ p. ground (arith, h.0), h.1)
  Requested-complete n (suc i) o (t ∷ ts) h = (h.0, Requested-complete n i o ts h.1)

  complete_at_done :
      (i : ℕ) (o : Outcome A) (ts : List (Task A))
      → all task_done ts ≡ true
      → complete_at i o ts ≡ ts
  unfolding complete_at
  complete_at_done i o [] h = refl
  complete_at_done zero o (t ∷ ts) h = ground arith
  complete_at_done (suc i) o (t ∷ ts) h = ground (arith, complete_at_done i o ts)

  pub Requested-eq : {m n : ℕ} (ts : List (Task A)) → m ≡ n → Requested m ts → Requested n ts
  Requested-eq ts e h = rw (← e) h

  complete-Inv : (own i : ℕ) (o : Outcome A) (g : Gather A) → Inv own g → Inv own (complete i o g)
  unfolding complete
  complete-Inv own i o g v = record {
    requested = λ p. Requested-complete (own + flag g.failed) i o g.tasks (v.requested p);
    untouched = v.untouched;
    settled = λ r p. let (d, e) = v.settled r p in rw (complete_at_done i o g.tasks d) (d, e);
    noted = v.noted;
  }

  -- The two ways in which a cancellation reaches a `gather` that is not over.
  abbrev stopped_early : Gather A → Gather A
  stopped_early g = record g {
    cancelled = true;
    failed = false;
    tasks = map request g.tasks;
    phase = all_completed;
  }

  abbrev stopped_late : Gather A → Gather A
  stopped_late g = record g {
    cancelled = true;
    failed = false;
    tasks = if g.failed then g.tasks else map request g.tasks;
  }

  stopped_early-Inv :
      (own : ℕ) (g : Gather A)
      → g.phase ≡ first_exception
      → Inv own g
      → Inv (own + 1) (stopped_early g)
  stopped_early-Inv own g e v =
      let (calm, unfailed) = v.untouched e in
      let due = v.requested (ground arith) in
      record {
        requested = λ _.
            Requested-eq (map request g.tasks) (ground arith)
              (Requested-request (own + flag g.failed) g.tasks due);
        untouched = λ p. cc;
        settled = λ o p. cc;
        noted = (λ p. cc, λ p. absurd (omega arith));
      }

  stopped_late-Requested :
      (own : ℕ) (failed : Bool) (ts : List (Task A))
      → Requested (own + flag failed) ts
      → Requested (own + 1 + 0) (if failed then ts else map request ts)
  stopped_late-Requested own true ts h = Requested-eq ts (omega arith) h
  stopped_late-Requested own false ts h =
      Requested-eq (map request ts) (omega arith) (Requested-request (own + 0) ts h)

  stopped_late-Inv :
      (own : ℕ) (g : Gather A)
      → g.phase ≡ all_completed
      → Inv own g
      → Inv (own + 1) (stopped_late g)
  stopped_late-Inv own g e v = record {
    requested = λ _. stopped_late-Requested own g.failed g.tasks (v.requested (ground arith));
    untouched = λ p. absurd (ground arith);
    settled = λ o p. absurd (ground arith);
    noted = (λ p. cc, λ p. absurd (omega arith));
  }

  over-Inv : {m n : ℕ} {g h : Gather A} → m ≡ n → g ≡ h → Inv m g → Inv n h
  over-Inv e f v = rw (← e, ← f) v

  interrupt-Inv :
      (own : ℕ) (g : Gather A) (p : Phase A)
      → g.phase ≡ p
      → Inv own g
      → Inv (own + (if is_over g.phase then 0 else 1)) (interrupt g)
  unfolding interrupt
  interrupt-Inv own g first_exception e v =
      over-Inv (ground arith) (ground arith) (stopped_early-Inv own g e v)
  interrupt-Inv own g all_completed e v =
      over-Inv (ground arith) (ground arith) (stopped_late-Inv own g e v)
  interrupt-Inv own g (done o) e v = over-Inv (ground arith) (ground arith) v

  woken_first-Requested :
      (failed : Bool) (ts : List (Task A))
      → Requested 0 ts
      → Requested (0 + flag failed) (if failed then map request ts else ts)
  woken_first-Requested true ts h = Requested-request 0 ts h
  woken_first-Requested false ts h = h

  woken_first-Inv :
      (own : ℕ) (g : Gather A) (failed : Bool)
      → g.phase ≡ first_exception
      → Inv own g
      → Inv own (record g {
        failed = failed;
        tasks = if failed then map request g.tasks else g.tasks;
        phase = all_completed;
      })
  woken_first-Inv own g failed e v =
      let (calm, unfailed) = v.untouched e in
      record {
        requested = λ _. rw calm (
            woken_first-Requested failed g.tasks
              (Requested-eq g.tasks (ground arith) (v.requested (ground arith))));
        untouched = λ p. cc;
        settled = λ o p. cc;
        noted = v.noted;
      }

  wake-Inv : (own : ℕ) (g : Gather A) (p : Phase A) → g.phase ≡ p → Inv own g → Inv own (wake g)
  unfolding wake
  wake-Inv own g first_exception e v = elim (Bool-cases (first_exception_over g.tasks)) [
    | inl over ↦ over-Inv refl (ground arith) (woken_first-Inv own g (any_failed g.tasks) e v)
    | inr still ↦ over-Inv refl (ground arith) v
  ]
  wake-Inv own g all_completed e v = elim (Bool-cases (all_completed_over g.tasks)) [
    | inl over ↦
        over-Inv {g = record g { phase = done (verdict g.cancelled g.tasks) }} refl (ground arith)
          (record {
            requested = λ p. cc;
            untouched = λ p. cc;
            settled = λ o p. (over, ground arith);
            noted = v.noted;
          })
    | inr still ↦ over-Inv refl (ground arith) v
  ]
  wake-Inv own g (done o) e v = over-Inv refl (ground arith) v

  fresh-Requested : (ts : List (Task A)) → All IsFresh ts → Requested (0 + flag false) ts
  fresh-Requested [] h = tt
  fresh-Requested (t ∷ ts) h = (λ p. omega (arith, h.0), fresh-Requested ts h.1)

  pub start-Inv :
      (sensitive : Bool) (ts : List (Task A)) → All IsFresh ts → Inv 0 (start sensitive ts)
  unfolding start
  start-Inv sensitive [] h = record {
    requested = λ p. cc;
    untouched = λ p. cc;
    settled = λ o p. (refl, unfold verdict in ground arith);
    noted = (λ p. refl, λ p. refl);
  }
  start-Inv sensitive (t ∷ ts) h = record {
    requested = λ p. fresh-Requested (t ∷ ts) h;
    untouched = λ p. (refl, refl);
    settled = λ o p. absurd (ground arith);
    noted = (λ p. refl, λ p. refl);
  }

  pub run-Inv :
      (es : List (Event A)) (own : ℕ) (g : Gather A)
      → Inv own g
      → Inv (own + interruptions es g) (run es g)
  unfolding run interruptions step
  run-Inv [] own g v = over-Inv (omega arith) refl v
  run-Inv (completes i o ∷ es) own g v = run-Inv es own (complete i o g) (complete-Inv own i o g v)
  run-Inv (interrupts ∷ es) own g v =
      over-Inv (omega arith) refl (run-Inv es _ (interrupt g) (interrupt-Inv own g g.phase refl v))
  run-Inv (wakes ∷ es) own g v = run-Inv es own (wake g) (wake-Inv own g g.phase refl v)
