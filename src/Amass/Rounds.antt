-- ===== src/Amass/Rounds.antt =====
-- One round of the generator of src/aiodrive/modules/amass.py, and what holds of the numbers.
use aiodrive.Prelude.{
  ◌==◌, Bool-cases, All, count, count-append, ℕ, ◌+◌, ◌≤◌, ◌≡◌, refl, inl, inr, Bool, true, false,
  Option, List, [], ◌∷◌, map, arith,
}
use aiodrive.Asyncio.{task_done}
use aiodrive.Gather.{all_completed_over}
use aiodrive.Amass.{
  Reason, exhausted, Phase, unstarted, waiting, dropped, yielded, closing, ended, Amass, mem,
  has_room, add, is_empty, fill, clean_up, next_round,
}
use aiodrive.Amass.Yields.{is_empty-nil, keys, IsYield, IsMissed, request-IsMissed, request-IsYield}

mem-fresh : (k : ℕ) (ks : List ℕ) → count k ks ≡ 0 → mem k ks ≡ false
mem-fresh k [] h = refl
mem-fresh k (j ∷ js) h = elim (Bool-cases (j == k)) [
  | inl e ↦ absurd (ground arith)
  | inr n ↦ rw n (mem-fresh k js (ground arith))
]

count-add :
    (j k : ℕ) (ks : List ℕ) → count k ks ≡ 0 → count j (add k ks) ≡ count j ks + count j (k ∷ [])
count-add j k ks h = rw (mem-fresh k ks h) (count-append j ks (k ∷ []))

count_head : (k : ℕ) (ks : List ℕ) → count k (k ∷ ks) ≡ 1 + count k ks
count_head k ks = ground arith

-- No awaitable is given twice.
module _ {A : Type 0} (awaitables : List ℕ) (distinct : (k : ℕ) → count k awaitables ≤ 1) where
  -- Where the number of an awaitable is found, once the futures `ks` of the round are left.
  abbrev occurrences : List ℕ → Amass A → ℕ → ℕ
  occurrences ks a k =
      count k a.todo
      + count k a.pending_futures
      + count k ks
      + count k (keys a.out)
      + count k a.missed

  -- What holds in the loop, with the futures that are left.
  pub record Running (sensitive : Bool) (ks : List ℕ) (a : Amass A) : Type 0 where
    pub spread : (k : ℕ) → occurrences ks a k ≡ count k awaitables
    pub known : (k : ℕ) → count k a.all_futures + count k a.todo ≡ count k awaitables
    pub right : IsYield a.futures a.out
    pub raised_ones : IsMissed a.futures a.missed
    pub over_ones : All (λ k. task_done (a.futures k) ≡ true) ks
    pub strict : sensitive ≡ true → a.missed ≡ []

  pub record Finishing (sensitive : Bool) (reason : Reason) (a : Amass A) : Type 0 where
    pub none_left : a.todo ≡ []
    pub known : (k : ℕ) → count k a.all_futures ≡ count k awaitables
    pub right : IsYield a.futures a.out
    pub raised_ones : IsMissed a.futures a.missed
    pub all_seen :
        reason ≡ exhausted
        → ((k : ℕ) → count k (keys a.out) + count k a.missed ≡ count k awaitables)
          × (sensitive ≡ true → a.missed ≡ [])

  abbrev pub Inv : Bool → Amass A → Phase → Type 0
  Inv sensitive a unstarted = Running sensitive [] a
  Inv sensitive a dropped = Running sensitive [] a
  Inv sensitive a waiting = Running sensitive [] a
  Inv sensitive a (yielded ks) = Running sensitive ks a
  Inv sensitive a (closing reason) = Finishing sensitive reason a
  Inv sensitive a (ended reason o) =
      Finishing sensitive reason a × (all_completed_over (map a.futures a.all_futures) ≡ true)

  pub clean_up-Finishing :
      (sensitive : Bool) (reason : Reason) (ks : List ℕ) (a : Amass A)
      → Running sensitive ks a
      → (reason ≡ exhausted
          → ((k : ℕ) → count k (keys a.out) + count k a.missed ≡ count k awaitables)
            × (sensitive ≡ true → a.missed ≡ []))
      → Finishing sensitive reason (clean_up reason a)
  clean_up-Finishing sensitive reason ks a v h = record {
    none_left = refl;
    known = λ k. omega (arith, count-append k a.all_futures a.todo, v.known k);
    right = request-IsYield (λ k. mem k a.pending_futures) a.futures a.out v.right;
    raised_ones = request-IsMissed (λ k. mem k a.pending_futures) a.futures a.missed v.raised_ones;
    all_seen = h;
  }

  fill-Running :
      (m : Option ℕ) (sensitive : Bool) (js ks : List ℕ) (a : Amass A)
      → Running sensitive js (record a { todo = ks })
      → Running sensitive js (fill m ks a)
  fill-Running m sensitive js [] a v = v
  fill-Running m sensitive js (k ∷ ks) a v = elim (Bool-cases (has_room m a.pending_futures)) [
    | inl t ↦ rw t (
        fill-Running m sensitive js ks
          (record a {
            all_futures = add k a.all_futures;
            pending_futures = add k a.pending_futures;
          })
          (record {
            spread = λ j. omega (
              arith,
              count-add j k a.pending_futures
                  (omega (arith, count_head k ks, v.spread k, distinct k)),
              v.spread j,
            );
            known = λ j. omega (
              arith,
              count-add j k a.all_futures (omega (arith, count_head k ks, v.known k, distinct k)),
              v.known j,
            );
            right = v.right;
            raised_ones = v.raised_ones;
            over_ones = v.over_ones;
            strict = v.strict;
          }))
    | inr n ↦ rw n v
  ]

  fill-empty :
      (m : Option ℕ) (ks : List ℕ) (a : Amass A)
      → has_room m [] ≡ true
      → (fill m ks a).pending_futures ≡ []
      → (fill m ks a).todo ≡ []
  fill-empty m [] a h e = refl
  fill-empty m (k ∷ ks) a h e = elim (Bool-cases (has_room m a.pending_futures)) [
    | inl t ↦ ground (
      arith,
      fill-empty m ks
          (record a {
            all_futures = add k a.all_futures;
            pending_futures = add k a.pending_futures;
          })
          h,
    )
    | inr n ↦ ground (arith, h)
  ]

  pub next_round-Inv :
      (m : Option ℕ) (sensitive : Bool) (a : Amass A)
      → has_room m [] ≡ true
      → Running sensitive [] a
      → Inv sensitive (next_round m a) (next_round m a).phase
  unfolding next_round
  next_round-Inv m sensitive a h v =
      let f = fill m a.todo a in
      let w : Running sensitive [] f = fill-Running m sensitive [] a.todo a v in
      elim (Bool-cases (is_empty f.pending_futures)) [
        | inl t ↦
            let p : f.pending_futures ≡ [] = is_empty-nil f.pending_futures t in
            let q : f.todo ≡ [] = fill-empty m a.todo a h p in
            rw t (
              clean_up-Finishing sensitive exhausted [] f w
                (λ _. (λ k. ground (arith, w.spread k, p, q), w.strict)))
        | inr n ↦ rw n (record {
          spread = w.spread;
          known = w.known;
          right = w.right;
          raised_ones = w.raised_ones;
          over_ones = tt;
          strict = w.strict;
        })
      ]

  -- What `Inv` says of a state and its phase.
  abbrev pub IsInv : Bool → Amass A → Type 0
  IsInv sensitive a = Inv sensitive a a.phase
