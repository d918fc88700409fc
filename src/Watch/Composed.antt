-- ===== src/Watch/Composed.antt =====
-- watch_path of src/aiodrive/modules/watch.py as a whole: the events of the file system, the part
-- that is watched and the calls of the user's callback.
use aiodrive.Prelude.{
  ◌==◌, if◌then◌else◌, Bool-cases, ℕ, ◌≤◌, ◌<◌, ◌≡◌, refl, sym, ap, ◌∙◌, subst, ◌⊎◌, inl, inr, Bool,
  true, false, not, Option, none, some, List, [], ◌∷◌, arith,
}
use aiodrive.Watch.{
  WatchPathEvent, create, delete, write, is_delete, Reporter, new_reporter, handle_event,
  eager_callback, fire, update_down, internal_callback,
}
use aiodrive.Watch.Paths.{
  IsTree, target_opened, expected, update_down-IsSettled, internal_callback-expected,
}
use aiodrive.Watch.Reports.{Follows, finds, sees, fires, fire-IsTold}
use aiodrive.Watch.Reports

-- The calls of `eager_callback` for the events of one change.
abbrev pub feed : List WatchPathEvent → Reporter → Reporter
feed [] r = r
feed (e ∷ es) r = feed es (eager_callback true true e r)

-- `present` says whether the target could be opened at the last event.
pub record Watching : Type 0 where
  pub watched : ℕ
  pub reporter : Reporter
  pub present : Bool

new_calls : new_reporter.calls ≡ []
unfolding new_reporter
new_calls = refl

module _ (target : ℕ) where
  -- With a delay and an immediate first call: the watch begins, an event on the watched part is
  -- handled on some state of the file system, and the delay passes.
  pub data Reach : Watching → Type 0 where
    begins :
        (fs exists : ℕ → Bool) (k : ℕ) (events : List WatchPathEvent)
        → IsTree fs exists
        → update_down fs exists 2 target target none ≡ (some k, events)
        → Reach (record { watched = k; reporter = feed events new_reporter; present = fs target })
    handles :
        {w : Watching} (fs exists : ℕ → Bool) (gone : Bool) (k : ℕ) (events : List WatchPathEvent)
        → Reach w
        → IsTree fs exists
        → ((gone ≡ true) → 0 < w.watched)
        → ((gone ≡ false) → fs w.watched ≡ true)
        → internal_callback fs exists 2 target gone w.watched ≡ (some k, events)
        → Reach (record { watched = k; reporter = feed events w.reporter; present = fs target })
    passes : {w : Watching} → Reach w → Reach (record w { reporter = fire w.reporter })

  -- The reporter knows of no target yet, or its last event agrees with `present`.
  abbrev IsKnown : Bool → Reporter → Type 0
  IsKnown present r =
      ((r ≡ new_reporter) × (present ≡ false))
      ⊎ (Reports.Reach r × (not (is_delete r.queued_event) ≡ present))

  handle_event-queued_event :
      (e : WatchPathEvent) (o : Option Bool) (r : Reporter)
      → (handle_event true true e o r).queued_event ≡ r.queued_event
  handle_event-queued_event e none r = refl
  handle_event-queued_event e (some last) r = ground arith

  eager_callback-queued_event :
      (e : WatchPathEvent) (r : Reporter) → (eager_callback true true e r).queued_event ≡ e
  unfolding eager_callback
  eager_callback-queued_event e r =
      handle_event-queued_event e r.last_reported_exists (record r { queued_event = e })

  sees-IsKnown :
      (e : WatchPathEvent) (r : Reporter)
      → Reports.Reach r
      → IsKnown (not (is_delete e)) (eager_callback true true e r)
  sees-IsKnown e r s =
      inr (Reports.sees e s, ap (λ x. not (is_delete x)) (eager_callback-queued_event e r))

  finds-IsKnown :
      (present : Bool) (r : Reporter)
      → IsKnown present r
      → IsKnown true (eager_callback true true create r)
  finds-IsKnown present r (inl (n, p)) = inr (
    subst (λ x. Reports.Reach (eager_callback true true create x)) (sym n) Reports.finds,
    ap (λ x. not (is_delete x)) (eager_callback-queued_event create r),
  )
  finds-IsKnown present r (inr (s, q)) = sees-IsKnown create r s

  known_reach : (r : Reporter) → IsKnown true r → Reports.Reach r
  known_reach r (inl (n, p)) = cc
  known_reach r (inr (s, q)) = s

  created-IsKnown :
      (present : Bool) (r : Reporter)
      → IsKnown false r
      → IsKnown present (feed (if present then create ∷ [] else []) r)
  created-IsKnown true r h = finds-IsKnown false r h
  created-IsKnown false r h = h

  -- What the events that are expected make of the reporter.
  feed-IsKnown :
      (fs exists : ℕ → Bool) (gone : Bool) (w : ℕ) (r : Reporter)
      → ((gone ≡ false) → fs w ≡ true)
      → IsKnown (w == target) r
      → IsKnown (fs target) (feed (expected fs exists target gone w) r)
  feed-IsKnown fs exists true w r o h = elim (Bool-cases (w == target)) [
    | inl t ↦
        let s : Reports.Reach r = known_reach r (subst (λ x. IsKnown x r) t h) in
        rw t (
          created-IsKnown (fs target) (eager_callback true true delete r) (sees-IsKnown delete r s))
    | inr n ↦ rw n (created-IsKnown (fs target) r (subst (λ x. IsKnown x r) n h))
  ]
  feed-IsKnown fs exists false w r o h = elim (Bool-cases (w == target)) [
    | inl t ↦
        let s : Reports.Reach r = known_reach r (subst (λ x. IsKnown x r) t h) in
        let p : fs target ≡ true = subst (λ x. fs x ≡ true) (ground arith) (o refl) in
        rw t (rw p (sees-IsKnown write r s))
    | inr n ↦ rw n (created-IsKnown (fs target) r (subst (λ x. IsKnown x r) n h))
  ]

  record Inv (w : Watching) : Type 0 where
    pub bound : w.watched ≤ target
    pub agrees : (w.watched == target) ≡ w.present
    pub known : IsKnown w.present w.reporter

  begins-Inv :
      (fs exists : ℕ → Bool) (k : ℕ) (events : List WatchPathEvent)
      → IsTree fs exists
      → update_down fs exists 2 target target none ≡ (some k, events)
      → Inv (record { watched = k; reporter = feed events new_reporter; present = fs target })
  begins-Inv fs exists k events t e =
      let (k', d, e') = update_down-IsSettled fs exists 0 target target none t (omega arith) refl in
      let q : ◌≡◌ {A = Option ℕ × List WatchPathEvent} (some k, events)
          (some k', if fs target then create ∷ [] else []) =
        sym e ∙ e' in
      let x : k ≡ k' = cc in
      let y : events ≡ (if fs target then create ∷ [] else []) = cc in
      rw x (
        rw y (record {
          bound = d.bound;
          agrees = target_opened fs exists target k' t d;
          known = created-IsKnown (fs target) new_reporter (inl (refl, refl));
        }))

  handles-Inv :
      (w : Watching) (fs exists : ℕ → Bool) (gone : Bool) (k : ℕ) (events : List WatchPathEvent)
      → Inv w
      → IsTree fs exists
      → ((gone ≡ true) → 0 < w.watched)
      → ((gone ≡ false) → fs w.watched ≡ true)
      → internal_callback fs exists 2 target gone w.watched ≡ (some k, events)
      → Inv (record { watched = k; reporter = feed events w.reporter; present = fs target })
  handles-Inv w fs exists gone k events v t g o e =
      let (k', d, e') =
        internal_callback-expected fs exists 0 target w.watched gone t v.bound g o in
      let q : ◌≡◌ {A = Option ℕ × List WatchPathEvent} (some k, events)
          (some k', expected fs exists target gone w.watched) =
        sym e ∙ e' in
      let x : k ≡ k' = cc in
      let y : events ≡ expected fs exists target gone w.watched = cc in
      rw x (
        rw y (record {
          bound = d.bound;
          agrees = target_opened fs exists target k' t d;
          known =
              feed-IsKnown fs exists gone w.watched w.reporter o
                (subst (λ b. IsKnown b w.reporter) (sym v.agrees) v.known);
        }))

  fire_new : fire new_reporter ≡ new_reporter
  unfolding fire new_reporter
  fire_new = refl

  fire-IsKnown : (present : Bool) (r : Reporter) → IsKnown present r → IsKnown present (fire r)
  fire-IsKnown present r (inl (n, p)) = inl (ap fire n ∙ fire_new, p)
  fire-IsKnown present r (inr (s, q)) =
      inr (Reports.fires s, ap (λ e. not (is_delete e)) (fire-IsTold s).1 ∙ q)

  Reach-Inv : {w : Watching} → Reach w → Inv w
  Reach-Inv (begins fs exists k events t e) = begins-Inv fs exists k events t e
  Reach-Inv (handles {w} fs exists gone k events r t g o e) =
      handles-Inv w fs exists gone k events (Reach-Inv r) t g o e
  Reach-Inv (passes {w} r) =
      let v = Reach-Inv r in
      record {
        bound = v.bound;
        agrees = v.agrees;
        known = fire-IsKnown w.present w.reporter v.known;
      }

  -- What the callback has been told: nothing, or a consistent account that ends in `present`.
  abbrev pub IsInformed : Bool → Reporter → Type 0
  IsInformed present r =
      ((r.calls ≡ []) × (present ≡ false)) ⊎ (Follows r.calls present × (r.error ≡ none))

  informed : (present : Bool) (r : Reporter) → IsKnown present r → IsInformed present (fire r)
  informed present r (inl (n, p)) = inl (ap (λ x. x.calls) (ap fire n ∙ fire_new) ∙ new_calls, p)
  informed present r (inr (s, q)) =
      let t = fire-IsTold s in inr (subst (Follows (fire r).calls) q t.3, t.0)

  -- With a delay and an immediate first call, on file systems where parts exist from the root down,
  -- through any deletions, creations and writes, of the target and of the directories above it, each
  -- handled before the next: once the delay has passed after the last event, the target is watched
  -- exactly if it could be opened at that event, and the callback was called as a consistent account
  -- that ends in just that, or never and the target was missing.
  pub Reach-IsInformed :
      {w : Watching}
      → Reach w
      → ((w.watched == target) ≡ w.present) × IsInformed w.present (fire w.reporter)
  Reach-IsInformed {w} r = let v = Reach-Inv r in (v.agrees, informed w.present w.reporter v.known)
