-- ===== src/Map/Bounded.antt =====
-- The bound on the jobs of `map` in src/aiodrive/modules/map.py.
use aiodrive.Prelude.{
  if◌then◌else◌, replicate, ℕ, zero, suc, ◌+◌, ◌≤◌, ◌<◌, max, ◌≡◌, refl, ap, ◌∙◌, true, false,
  Option, some, List, [], ◌∷◌, ◌++◌, arith,
}
use aiodrive.Map.{Jobs, start, take_item, stop, finish, Event, fetches, maps, step, run}

pub record Inv (max : ℕ) (j : Jobs) : Type 0 where
  pub counted : j.job_count ≡ (if j.fetching then 1 else 0) + j.mapping
  pub bounded : j.job_count ≤ max

step-Inv : (max : ℕ) (e : Event) (j : Jobs) → Inv max j → Inv max (step (some max) e j)
unfolding step take_item stop finish
step-Inv max fetches j v = record {
  counted = ground (arith, v.counted);
  bounded = ground (arith, v.counted, v.bounded);
}
step-Inv max maps j v = record {
  counted = ground (arith, v.counted);
  bounded = ground (arith, v.bounded);
}

run-Inv : (max : ℕ) (es : List Event) (j : Jobs) → Inv max j → Inv max (run (some max) es j)
unfolding run
run-Inv max [] j v = v
run-Inv max (e ∷ es) j v = run-Inv max es (step (some max) e j) (step-Inv max e j v)

-- If the bound is at least one, then whatever items and results arrive in whatever order, no more
-- mappers than the bound run at once.
pub run-bounded :
    (max items : ℕ) (es : List Event) → 0 < max → (run (some max) es (start items)).mapping ≤ max
unfolding start
run-bounded max items es h =
    let v = run-Inv max es (start items) (record { counted = refl; bounded = h }) in
    ground (arith, v.counted, v.bounded)

-- Without a job that fetches, nothing more is taken and the queue stays as it is.
run-stalled :
    (m : Option ℕ) (es : List Event) (j : Jobs)
    → j.fetching ≡ false
    → ((run m es j).remaining ≡ j.remaining) × ((run m es j).closed ≡ j.closed)
unfolding run step finish
run-stalled m [] j h = (refl, refl)
run-stalled m (fetches ∷ es) j h =
    let same : step m fetches j ≡ j = ground arith in
    let (r, c) = run-stalled m es (step m fetches j) (ap (λ x. x.fetching) same ∙ h) in
    (r ∙ ap (λ x. x.remaining) same, c ∙ ap (λ x. x.closed) same)
run-stalled m (maps ∷ es) j h =
    let (r, c) = run-stalled m es (step m maps j) (ground arith) in
    (r ∙ ground arith, c ∙ ground arith)

abbrev fetching_jobs : ℕ → ℕ → ℕ → Jobs
fetching_jobs count mapping remaining = record {
  job_count = count;
  fetching = true;
  mapping = mapping;
  remaining = remaining;
  closed = false;
}

step_last :
    (max count mapping r : ℕ)
    → count ≡ max
    → step (some max) fetches (fetching_jobs count mapping (suc r))
      ≡ record (fetching_jobs count (mapping + 1) r) { fetching = false }
unfolding step take_item
step_last max count mapping r h = ground arith

step_more :
    (max count mapping r : ℕ)
    → count < max
    → step (some max) fetches (fetching_jobs count mapping (suc r))
      ≡ fetching_jobs (count + 1) (mapping + 1) r
unfolding step take_item
step_more max count mapping r h = ground arith

full_run :
    (k max count mapping remaining r : ℕ) (es : List Event)
    → count + k ≡ max
    → r ≡ suc k + remaining
    → ((run (some max) (replicate (suc k) fetches ++ es) (fetching_jobs count mapping r)).remaining
        ≡ remaining)
      × ((run (some max) (replicate (suc k) fetches ++ es) (fetching_jobs count mapping r)).closed
          ≡ false)
unfolding run
full_run zero max count mapping remaining r es h e =
    let e' : r ≡ suc remaining = omega arith in
    let last =
      ap (λ n. step (some max) fetches (fetching_jobs count mapping n)) e'
      ∙ step_last max count mapping remaining (omega arith) in
    let (left, closed) =
      run-stalled (some max) es
        (record (fetching_jobs count (mapping + 1) remaining) { fetching = false }) refl in
    (
      ap (λ j. (run (some max) es j).remaining) last ∙ left,
      ap (λ j. (run (some max) es j).closed) last ∙ closed,
    )
full_run (suc k) max count mapping remaining r es h e =
    let e' : r ≡ suc (suc k + remaining) = omega arith in
    let more =
      ap (λ n. step (some max) fetches (fetching_jobs count mapping n)) e'
      ∙ step_more max count mapping (suc k + remaining) (omega arith) in
    let (left, closed) =
      full_run k max (count + 1) (mapping + 1) remaining (suc k + remaining) es (omega arith)
        refl in
    (
      ap (λ j. (run (some max) (replicate (suc k) fetches ++ es) j).remaining) more ∙ left,
      ap (λ j. (run (some max) (replicate (suc k) fetches ++ es) j).closed) more ∙ closed,
    )

-- If the first items arrive before any mapper returns, as many as the bound allows, then no other
-- item is ever taken, whatever happens afterwards, and the queue is never closed: the consumer
-- waits for ever.
pub run-full :
    (max rest : ℕ) (es : List Event)
    → 0 < max
    → ((run (some max) (replicate max fetches ++ es) (start (max + rest))).remaining ≡ rest)
      × ((run (some max) (replicate max fetches ++ es) (start (max + rest))).closed ≡ false)
unfolding start
run-full zero rest es h = absurd (omega arith)
run-full (suc k) rest es h = full_run k (suc k) 1 0 rest (suc k + rest) es (omega arith) refl
