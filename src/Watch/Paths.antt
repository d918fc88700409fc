-- ===== src/Watch/Paths.antt =====
-- Which part of the path is watched by watch_path of src/aiodrive/modules/watch.py.
use aiodrive.Prelude.{
  ◌==◌, if◌then◌else◌, Bool-cases, ℕ, zero, suc, ◌+◌, ◌-◌, ◌≤◌, ◌<◌, ◌≡◌, refl, sym, ◌∙◌, subst,
  inl, inr, Bool, true, false, Option, some, List, [], ◌∷◌, arith,
}
use aiodrive.Watch.{
  WatchPathEvent, create, delete, write, open_down, open_up, is_watched, update_watch, update_down,
  update_up, internal_callback,
}

module _ (fs exists : ℕ → Bool) where
  -- The deepest part of the path that can be opened.
  pub record IsDeepest (target k : ℕ) : Type 0 where
    pub bound : k ≤ target
    pub opened : fs k ≡ true
    pub last : (k < target) → fs (suc k) ≡ false

  -- Parts exist from the root down, and one that can be opened exists.
  pub record IsTree : Type 0 where
    pub root : fs 0 ≡ true
    pub up : (k : ℕ) → fs (suc k) ≡ true → fs k ≡ true
    pub seen : (k : ℕ) → fs k ≡ true → exists k ≡ true

  open_down_lem :
      (k : ℕ) → IsTree → (open_down fs exists k ≤ k) × (fs (open_down fs exists k) ≡ true)
  unfolding open_down
  open_down_lem zero t = (omega arith, t.root)
  open_down_lem (suc k) t = ground (arith, open_down_lem k t)

  open_up_lem :
      (j k target : ℕ)
      → k + j ≡ target
      → fs k ≡ true
      → IsDeepest target (open_up fs exists j k) × (k ≤ open_up fs exists j k)
  unfolding open_up
  open_up_lem zero k target e h =
      (record { bound = ground arith; opened = h; last = λ b. ground arith }, ground arith)
  open_up_lem (suc j) k target e h = elim (Bool-cases (fs (suc k))) [
    | inl t ↦ rw t (let (d, b) = open_up_lem j (suc k) target (ground arith) t in (d, ground arith))
    | inr n ↦ rw n (record { bound = ground arith; opened = h; last = λ b. n }, ground arith)
  ]

  open_up_deepest :
      (j k target : ℕ) → k + j ≡ target → IsDeepest target k → open_up fs exists j k ≡ k
  unfolding open_up
  open_up_deepest zero k target e d = refl
  open_up_deepest (suc j) k target e d = rw (d.last (ground arith)) refl

  -- The part that is watched when `create` is passed on or the target is missing.
  abbrev pub announced : ℕ → ℕ → List WatchPathEvent
  announced target k = if k == target then create ∷ [] else []

  update_watch_deepest :
      (fuel target k : ℕ) (watched : Option ℕ)
      → IsTree
      → IsDeepest target k
      → is_watched fs exists k watched ≡ false
      → update_watch fs exists (suc fuel) target k watched ≡ (some k, announced target k)
  unfolding update_watch
  update_watch_deepest fuel target k watched t d n = rw n (
      rw (t.seen k d.opened) (elim (Bool-cases (k == target)) [
        | inl e ↦ rw e refl
        | inr m ↦ rw m (
            rw (open_up_deepest (target - k) k target (let b = d.bound in omega arith) d)
              (ground arith))
      ]))

  -- What is watched in the end, and what is passed on.
  abbrev pub IsSettled : ℕ → Option ℕ × List WatchPathEvent → Type 0
  IsSettled target r = (k : ℕ) × (IsDeepest target k) × (r ≡ (some k, announced target k))

  update_watch-IsSettled :
      (fuel target k : ℕ) (watched : Option ℕ)
      → IsTree
      → k ≤ target
      → fs k ≡ true
      → is_watched fs exists k watched ≡ false
      → IsSettled target (update_watch fs exists (suc (suc fuel)) target k watched)
  unfolding update_watch
  update_watch-IsSettled fuel target k watched t b o n =
      let (d, u) = open_up_lem (target - k) k target (omega arith) o in
      rw n (
        rw (t.seen k o) (elim (Bool-cases (k == target)) [
          | inl e ↦ rw e (k, record { bound = b; opened = o; last = λ l. ground arith }, rw e refl)
          | inr m ↦ rw m (elim (Bool-cases (open_up fs exists (target - k) k == k)) [
            | inl e ↦ rw e (k, subst (IsDeepest target) (ground arith) d, rw m refl)
            | inr x ↦ rw x (
              open_up fs exists (target - k) k,
              d,
              update_watch_deepest fuel target (open_up fs exists (target - k) k) (some k) t d
                  (ground arith),
            )
          ])
        ]))

  opened_below : (j k : ℕ) → IsTree → fs (j + k) ≡ true → fs k ≡ true
  opened_below zero k t o = ground (arith, o)
  opened_below (suc j) k t o = opened_below j k t (t.up (j + k) (ground arith))

  pub target_opened : (target k : ℕ) → IsTree → IsDeepest target k → (k == target) ≡ fs target
  target_opened target k t d = elim (Bool-cases (k == target)) [
    | inl e ↦ e ∙ sym (subst (λ x. fs x ≡ true) (ground arith) d.opened)
    | inr m ↦ elim (Bool-cases (fs target)) [
      | inl o ↦
          let b = d.bound in
          let p : fs (suc k) ≡ true =
            opened_below (target - suc k) (suc k) t (subst (λ x. fs x ≡ true) (ground arith) o) in
          let q : fs (suc k) ≡ false = d.last (ground arith) in cc
      | inr n ↦ m ∙ sym n
    ]
  ]

  -- What `eager_callback` should be given after an event on the part `w`.
  abbrev pub expected : ℕ → Bool → ℕ → List WatchPathEvent
  expected target gone w =
      let created : List WatchPathEvent = if fs target then create ∷ [] else [] in
      if gone
      then (if w == target then delete ∷ created else created)
      else if w == target
      then write ∷ []
      else created

  pub update_down-IsSettled :
      (fuel target guess : ℕ) (watched : Option ℕ)
      → IsTree
      → guess ≤ target
      → is_watched fs exists (open_down fs exists guess) watched ≡ false
      → (k : ℕ) × (IsDeepest target k)
        × (update_down fs exists (suc (suc fuel)) target guess watched
            ≡ (some k, if fs target then create ∷ [] else []))
  unfolding update_down
  update_down-IsSettled fuel target guess watched t b n =
      let (l, o) = open_down_lem guess t in
      let (k, d, e) =
        update_watch-IsSettled fuel target (open_down fs exists guess) watched t (omega arith) o
          n in
      (k, d, rw e (rw (target_opened target k t d) refl))

  update_up-IsSettled :
      (fuel target w : ℕ)
      → IsTree
      → w < target
      → fs w ≡ true
      → (k : ℕ) × (IsDeepest target k)
        × (update_up fs exists (suc (suc fuel)) target w (some w)
            ≡ (some k, if fs target then create ∷ [] else []))
  unfolding update_up
  update_up-IsSettled fuel target w t b o =
      let (d, u) = open_up_lem (target - w) w target (omega arith) o in
      let v = open_up fs exists (target - w) w in
      elim (Bool-cases (v == w)) [
        | inl e ↦
            let c : IsDeepest target w = subst (IsDeepest target) (ground arith) d in
            let f : fs target ≡ false = sym (target_opened target w t c) ∙ ground arith in
            rw e (w, c, rw f refl)
        | inr x ↦ rw x (
          v,
          d,
          update_watch_deepest (suc fuel) target v (some w) t d (ground arith)
              ∙ rw (target_opened target v t d) refl,
        )
      ]

  -- On a file system where parts exist from the root down: after an event on the watched part, the
  -- deepest part that can be opened is watched, and `eager_callback` is given `delete` if the target
  -- was deleted, `create` if the target can be opened now and was not watched or was deleted, and
  -- `write` if it was written to. The part of a deletion is not the root, and that of a write can
  -- still be opened; two nested calls of `update_watch` are enough.
  pub internal_callback-expected :
      (fuel target w : ℕ) (gone : Bool)
      → IsTree
      → w ≤ target
      → ((gone ≡ true) → 0 < w)
      → ((gone ≡ false) → fs w ≡ true)
      → (k : ℕ) × (IsDeepest target k)
        × (internal_callback fs exists (suc (suc fuel)) target gone w
            ≡ (some k, expected target gone w))
  unfolding internal_callback update_up
  internal_callback-expected fuel target w true t b g o =
      let z = g refl in
      let (l, q) = open_down_lem (w - 1) t in
      let (k, d, e) =
        update_down-IsSettled fuel target (w - 1) (some w) t (omega arith) (ground arith) in
      (k, d, rw e (elim (Bool-cases (w == target)) [ inl e' ↦ rw e' refl | inr m ↦ rw m refl ]))
  internal_callback-expected fuel target w false t b g o = elim (Bool-cases (w == target)) [
    | inl e ↦ rw e (w, record { bound = b; opened = o refl; last = λ l. ground arith }, refl)
    | inr m ↦ rw m (update_up-IsSettled fuel target w t (ground arith) (o refl))
  ]
