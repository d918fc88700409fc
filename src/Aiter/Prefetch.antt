-- ===== src/Aiter/Prefetch.antt =====
-- The items that `buffer_aiter` of src/aiodrive/modules/aiter.py prefetches and yields.
use aiodrive.Prelude.{
  leb, if◌then◌else◌, Bool-cases, length, length-append, ℕ, ◌≤◌, ◌<◌, max, ◌≡◌, refl, sym, inl, inr,
  Bool, true, false, not, ◌&&◌, ◌||◌, Option, some, List, [], ◌∷◌, ◌++◌, arith,
}
use aiodrive.Aiter.{
  Stream, stops, fails, gives, Buffer, buffer_aiter, append_item, produce, is_empty, take_first,
  consume,
}

-- The producer and the consumer run in any order; `true` is the producer.
abbrev pub run : {A : Type 0} → Option ℕ → List Bool → Buffer A → Buffer A
run size [] b = b
run size (true ∷ bs) b = run size bs (produce size b)
run size (false ∷ bs) b = run size bs (consume b)

module _ {A : Type 0} where
  record Inv (size : ℕ) (b : Buffer A) : Type 0 where
    pub set_iff : b.latch ≡ not (is_empty b.queue)
    pub bounded : length b.queue ≤ max 1 size
    pub yielded_once : length b.out ≡ (if b.over then 1 else 0)

  append-nonempty : (xs : List A) (a : A) → not (is_empty (xs ++ a ∷ [])) ≡ true
  append-nonempty [] a = refl
  append-nonempty (x ∷ xs) a = refl

  append_item-Inv :
      (size : ℕ) (b : Buffer A) (s : Stream A)
      → Inv size b
      → length b.queue < max 1 size
      → Inv size (append_item s b)
  append_item-Inv size b stops v h = v
  append_item-Inv size b (fails e) v h = v
  append_item-Inv size b (gives a s) v h = record {
    set_iff = sym (append-nonempty b.queue a);
    bounded = omega (arith, length-append b.queue (a ∷ []));
    yielded_once = v.yielded_once;
  }

  nonempty : (xs : List A) → is_empty xs ≡ false → 0 < length xs
  nonempty [] e = cc
  nonempty (x ∷ xs) e = omega arith

  empty_length : (xs : List A) → is_empty xs ≡ true → length xs ≡ 0
  empty_length [] e = refl
  empty_length (x ∷ xs) e = cc

  produce-Inv : (size : ℕ) (b : Buffer A) → Inv size b → Inv size (produce (some size) b)
  unfolding produce
  produce-Inv size b v = elim (Bool-cases (leb size (length b.queue) && b.latch)) [
    | inl t ↦ rw t v
    | inr n ↦ rw n (
        append_item-Inv size b b.source v
          (ground (arith, v.bounded, v.set_iff, empty_length b.queue)))
  ]

  take_first-Inv :
      (size : ℕ) (b : Buffer A) (q : List A)
      → b.queue ≡ q
      → b.over ≡ false
      → Inv size b
      → Inv size (take_first q b)
  take_first-Inv size b [] e o v = v
  take_first-Inv size b (a ∷ []) e o v = record {
    set_iff = refl;
    bounded = omega arith;
    yielded_once = ground (arith, v.yielded_once, length-append b.out (a ∷ []));
  }
  take_first-Inv size b (a ∷ c ∷ q) e o v = record {
    set_iff = ground (arith, v.set_iff);
    bounded = ground (arith, v.bounded);
    yielded_once = ground (arith, v.yielded_once, length-append b.out (a ∷ []));
  }

  consume-Inv : (size : ℕ) (b : Buffer A) → Inv size b → Inv size (consume b)
  unfolding consume
  consume-Inv size b v = elim (Bool-cases (b.over || not b.latch)) [
    | inl t ↦ rw t v
    | inr n ↦ rw n (take_first-Inv size b b.queue refl (ground arith) v)
  ]

  run-Inv :
      (size : ℕ) (bs : List Bool) (b : Buffer A) → Inv size b → Inv size (run (some size) bs b)
  run-Inv size [] b v = v
  run-Inv size (true ∷ bs) b v = run-Inv size bs (produce (some size) b) (produce-Inv size b v)
  run-Inv size (false ∷ bs) b v = run-Inv size bs (consume b) (consume-Inv size b v)

  -- In whatever order the producer and the consumer run, no more items than the size, or one if it
  -- is zero, are prefetched at once, and the generator yields one item at most, whatever the
  -- iterable has.
  pub run-buffer_aiter :
      (size : ℕ) (bs : List Bool) (s : Stream A)
      → (length (run (some size) bs (buffer_aiter s)).queue ≤ max 1 size)
        × (length (run (some size) bs (buffer_aiter s)).out ≤ 1)
  unfolding buffer_aiter
  run-buffer_aiter size bs s =
      let v =
        run-Inv size bs (buffer_aiter s)
          (record { set_iff = refl; bounded = omega arith; yielded_once = refl }) in
      (v.bounded, ground (arith, v.yielded_once))
