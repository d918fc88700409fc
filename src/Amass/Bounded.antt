-- ===== src/Amass/Bounded.antt =====
-- The bound on the futures of `amass` in src/aiodrive/modules/amass.py.
use aiodrive.Prelude.{
  Bool-cases, length, length-append, ℕ, ◌+◌, ◌≤◌, ◌<◌, max, ◌≡◌, inl, inr, Bool, true, false, some,
  List, [], ◌∷◌, arith,
}
use aiodrive.Asyncio.{Outcome, returned, raised, result}
use aiodrive.Amass.{
  Amass, mem, has_room, add, is_empty, fill, next_round, pass_over, take_outcome, look, wake,
  gathered, complete,
}
use aiodrive.Amass.Schedule.{
  begins, discards, completes, wakes, resumes, closes, interrupts, ends, Reach, here, next,
}

length-add : (k : ℕ) (ks : List ℕ) → length (add k ks) ≤ length ks + 1
length-add k ks = elim (Bool-cases (mem k ks)) [
  | inl t ↦ rw t (omega arith)
  | inr n ↦ rw n (omega (arith, length-append ks (k ∷ [])))
]

has_room-ltb : (max : ℕ) (ks : List ℕ) → has_room (some max) ks ≡ true → length ks < max
has_room-ltb max ks h = ground arith

module _ {A : Type 0} (max : ℕ) where
  abbrev IsBounded : Amass A → Type 0
  IsBounded a = length a.pending_futures ≤ max

  fill-IsBounded : (ks : List ℕ) (a : Amass A) → IsBounded a → IsBounded (fill (some max) ks a)
  fill-IsBounded [] a h = h
  fill-IsBounded (k ∷ ks) a h = elim (Bool-cases (has_room (some max) a.pending_futures)) [
    | inl t ↦ rw t (
        fill-IsBounded ks
          (record a {
            all_futures = add k a.all_futures;
            pending_futures = add k a.pending_futures;
          })
          (omega (arith, length-add k a.pending_futures, has_room-ltb max a.pending_futures t)))
    | inr n ↦ rw n h
  ]

  next_round-IsBounded : (a : Amass A) → IsBounded a → IsBounded (next_round (some max) a)
  unfolding next_round
  next_round-IsBounded a h =
      let b = fill-IsBounded a.todo a h in
      elim (Bool-cases (is_empty (fill (some max) a.todo a).pending_futures)) [
        | inl t ↦ rw t b
        | inr n ↦ rw n b
      ]

  take_outcome-IsBounded :
      (sensitive : Bool) (k : ℕ) (ks : List ℕ) (a rest : Amass A) (o : Outcome A)
      → IsBounded a
      → IsBounded rest
      → IsBounded (take_outcome sensitive k ks a rest o)
  take_outcome-IsBounded sensitive k ks a rest (returned x) h b = h
  take_outcome-IsBounded true k ks a rest (raised x) h b = h
  take_outcome-IsBounded false k ks a rest (raised x) h b = b

  look-IsBounded :
      (sensitive : Bool) (ks : List ℕ) (a : Amass A)
      → IsBounded a
      → IsBounded (look (some max) sensitive ks a)
  unfolding look
  look-IsBounded sensitive [] a h = next_round-IsBounded a h
  look-IsBounded sensitive (k ∷ ks) a h =
      take_outcome-IsBounded sensitive k ks a (look (some max) sensitive ks (pass_over k a))
        (result (a.futures k).future) h (look-IsBounded sensitive ks (pass_over k a) h)

  -- `asyncio.wait` is never called on more futures than the bound, whatever the awaitables, their
  -- outcomes and the order of the steps. The futures that terminate the awaitables in the end are
  -- not among them, and are all pending at once.
  pub Reach-bounded :
      (sensitive : Bool) (awaitables : List ℕ) {a : Amass A}
      → Reach (some max) sensitive awaitables a
      → length a.pending_futures ≤ max
  unfolding complete wake gathered
  Reach-bounded sensitive awaitables here = omega arith
  Reach-bounded sensitive awaitables (next {a} r (begins e)) =
      next_round-IsBounded a (Reach-bounded sensitive awaitables r)
  Reach-bounded sensitive awaitables (next {a} r (discards e)) =
      Reach-bounded sensitive awaitables r
  Reach-bounded sensitive awaitables (next {a} r (completes k o)) =
      Reach-bounded sensitive awaitables r
  Reach-bounded sensitive awaitables (next {a} r (wakes ds rest e c l d)) =
      look-IsBounded sensitive ds (record a { pending_futures = rest })
        (omega (arith, l, Reach-bounded sensitive awaitables r))
  Reach-bounded sensitive awaitables (next {a} r (resumes ks e)) =
      look-IsBounded sensitive ks a (Reach-bounded sensitive awaitables r)
  Reach-bounded sensitive awaitables (next {a} r (closes ks e)) =
      Reach-bounded sensitive awaitables r
  Reach-bounded sensitive awaitables (next {a} r (interrupts e)) =
      Reach-bounded sensitive awaitables r
  Reach-bounded sensitive awaitables (next {a} r (ends reason w e d)) =
      Reach-bounded sensitive awaitables r
