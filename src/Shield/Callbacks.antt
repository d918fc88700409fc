-- ===== src/Shield/Callbacks.antt =====
-- The function `shield` of src/aiodrive/modules/shield.py: two futures and the callbacks between
-- them. A future that becomes done puts its callbacks on the loop's queue, from which they run
-- later; a callback that is queued can no longer be removed.
use aiodrive.Prelude.{
  if◌then◌else◌, any, ◌≡◌, refl, ap, subst, ◌⊎◌, inl, inr, Bool, true, false, ◌||◌, Option, none,
  List, [], ◌∷◌, arith,
}
use aiodrive.Asyncio.{Exn, Outcome, Future, is_done, is_cancelled, cancel, settle}
use aiodrive.FutureState.{transfer, absorb_future}

pub record Shielded (A : Type 0) : Type 0 where
  pub inner : Future A
  pub outer : Future A
  -- `inner_callback` is registered with `inner`; it is queued; `outer_callback` is queued.
  pub listening : Bool
  pub inner_queued : Bool
  pub outer_queued : Bool
  -- What a callback has raised.
  pub error : Option Exn

-- `shield` returns a future that is done as it is.
pub data Shield (A : Type 0) : Type 0 where
  as_is : Future A → Shield A
  shielded : Shielded A → Shield A

pub data Happening (A : Type 0) : Type 0 where
  inner_ends : Outcome A → Happening A
  outer_cancelled inner_callback outer_callback : Happening A

module _ {A : Type 0} where
  abbrev pub is_outer_cancelled : Happening A → Bool
  is_outer_cancelled outer_cancelled = true
  is_outer_cancelled _ = false

or_assoc : (a b c : Bool) → ((a || b) || c) ≡ (a || (b || c))
or_assoc false b c = refl
or_assoc true b c = refl

module _ {A : Type 0} (py_none : A) where
  unfoldable pub shield : Future A → Shield A
  shield inner =
      if is_done inner
      then as_is inner
      else shielded (record {
        inner = inner;
        outer = Future.pending;
        listening = true;
        inner_queued = false;
        outer_queued = false;
        error = none;
      })

  end_inner : Outcome A → Shielded A → Shielded A
  end_inner o s =
      if is_done s.inner
      then s
      else record s { inner = settle o; listening = false; inner_queued = s.listening }

  cancel_outer : Shielded A → Shielded A
  cancel_outer s =
      if is_done s.outer then s else record s { outer = cancel s.outer; outer_queued = true }

  -- The body of `inner_callback`.
  unfoldable pub run_inner_callback : Shielded A → Shielded A
  run_inner_callback s =
      if is_cancelled s.outer
      then record s { inner_queued = false }
      else let (f, e) = transfer (absorb_future py_none s.inner) s.outer in
        record s { inner_queued = false; outer = f; outer_queued = is_done f; error = e }

  -- The body of `outer_callback`, which removes `inner_callback` from `inner`.
  unfoldable pub run_outer_callback : Shielded A → Shielded A
  run_outer_callback s = record s { outer_queued = false; listening = false }

  unfoldable pub happen : Happening A → Shielded A → Shielded A
  unfolding end_inner cancel_outer run_inner_callback run_outer_callback
  happen (inner_ends o) s = end_inner o s
  happen outer_cancelled s = cancel_outer s
  happen inner_callback s = if s.inner_queued then run_inner_callback s else s
  happen outer_callback s = if s.outer_queued then run_outer_callback s else s

  unfoldable pub happen_all : List (Happening A) → Shielded A → Shielded A
  happen_all [] s = s
  happen_all (h ∷ hs) s = happen_all hs (happen h s)

  -- `asked` says that the awaiting task has cancelled the new future.
  pub record IsSound (asked : Bool) (s : Shielded A) : Type 0 where
    pub silent : s.error ≡ none
    -- The awaiting task sees nothing yet, its own cancellation, or the state of the inner future.
    pub faithful :
        (s.outer ≡ Future.pending)
        ⊎ ((s.outer ≡ Future.cancelled) × (asked ≡ true))
        ⊎ ((s.outer ≡ s.inner) × (is_done s.inner ≡ true))
    -- Nothing is lost: the callback is registered or queued while it is needed.
    pub linked :
        s.outer ≡ Future.pending
        → (s.outer_queued ≡ false)
          × (((s.inner ≡ Future.pending) × (s.listening ≡ true)) ⊎ (s.inner_queued ≡ true))
    pub settled : s.inner_queued ≡ true → is_done s.inner ≡ true
    pub once :
        s.inner_queued ≡ true
        → (s.outer ≡ Future.pending) ⊎ ((s.outer ≡ Future.cancelled) × (asked ≡ true))

  happen-IsSound :
      (h : Happening A) (asked : Bool) (s : Shielded A)
      → IsSound asked s
      → IsSound (asked || is_outer_cancelled h) (happen h s)
  unfolding happen transfer absorb_future
  happen-IsSound (inner_ends o) false s v = ground arith
  happen-IsSound (inner_ends o) true s v = ground arith
  happen-IsSound outer_cancelled false s v = ground arith
  happen-IsSound outer_cancelled true s v = ground arith
  happen-IsSound inner_callback false s v = ground arith
  happen-IsSound inner_callback true s v = ground arith
  happen-IsSound outer_callback false s v = ground arith
  happen-IsSound outer_callback true s v = ground arith

  happen_all-IsSound :
      (hs : List (Happening A)) (asked : Bool) (s : Shielded A)
      → IsSound asked s
      → IsSound (asked || any is_outer_cancelled hs) (happen_all hs s)
  unfolding happen_all
  happen_all-IsSound [] false s v = v
  happen_all-IsSound [] true s v = v
  happen_all-IsSound (h ∷ hs) asked s v =
      subst (λ b. IsSound b (happen_all hs (happen h s)))
        (or_assoc asked (is_outer_cancelled h) (any is_outer_cancelled hs))
        (happen_all-IsSound hs (asked || is_outer_cancelled h) (happen h s)
          (happen-IsSound h asked s v))

  abbrev pub linked_pair : Shielded A
  linked_pair = record {
    inner = Future.pending;
    outer = Future.pending;
    listening = true;
    inner_queued = false;
    outer_queued = false;
    error = none;
  }

  abbrev shielded_of : Shield A → Shielded A
  shielded_of (as_is f) = linked_pair
  shielded_of (shielded s) = s

  linked_pair-IsSound : IsSound false linked_pair
  linked_pair-IsSound = ground arith

  run-IsSound :
      (hs : List (Happening A)) → IsSound (any is_outer_cancelled hs) (happen_all hs linked_pair)
  run-IsSound hs = happen_all-IsSound hs false linked_pair linked_pair-IsSound

  IsSound-told :
      (asked : Bool) (t : Shielded A)
      → IsSound asked t
      → is_done t.inner ≡ true
      → t.inner_queued ≡ false
      → is_done t.outer ≡ true
  IsSound-told asked t v d q = elim v.faithful [
    | inl p ↦ absurd (ground (arith, v.linked p))
    | inr (inl p) ↦ ground arith
    | inr (inr p) ↦ ground arith
  ]

  -- `shield` of a pending future links a new future to it. Whatever then happens, in any order: no
  -- callback raises, and the new future is pending, or it is cancelled and the awaiting task has
  -- cancelled it, or the shielded future is done and the new one has its state. Once the shielded
  -- future is done and has no callback queued, the new one is done.
  pub shield_sound :
      (hs : List (Happening A)) (s : Shielded A)
      → shield Future.pending ≡ shielded s
      → let t = happen_all hs s in
        (t.error ≡ none)
        × ((t.outer ≡ Future.pending)
            ⊎ ((t.outer ≡ Future.cancelled) × (any is_outer_cancelled hs ≡ true))
            ⊎ ((t.outer ≡ t.inner) × (is_done t.inner ≡ true)))
        × (is_done t.inner ≡ true → t.inner_queued ≡ false → is_done t.outer ≡ true)
  unfolding shield
  shield_sound hs s p =
      let same : linked_pair ≡ s = ap shielded_of p in
      subst
        (λ s.
          let t = happen_all hs s in
          (t.error ≡ none)
          × ((t.outer ≡ Future.pending)
              ⊎ ((t.outer ≡ Future.cancelled) × (any is_outer_cancelled hs ≡ true))
              ⊎ ((t.outer ≡ t.inner) × (is_done t.inner ≡ true)))
          × (is_done t.inner ≡ true → t.inner_queued ≡ false → is_done t.outer ≡ true))
        same
        (let v = run-IsSound hs in
          (
            v.silent,
            v.faithful,
            IsSound-told (any is_outer_cancelled hs) (happen_all hs linked_pair) v,
          ))

  -- While the new future is pending, the end of the shielded one reaches it: after the end and the
  -- callback that this queues, both have the state of the outcome. A cancellation of the new
  -- future instead leaves the shielded one as it is.
  pub shield_delivers :
      (hs : List (Happening A)) (o : Outcome A)
      → (happen_all hs linked_pair).outer ≡ Future.pending
      → (happen_all hs linked_pair).inner ≡ Future.pending
      → ((happen inner_callback (happen (inner_ends o) (happen_all hs linked_pair))).outer
          ≡ settle o)
        × ((happen outer_cancelled (happen_all hs linked_pair)).inner ≡ Future.pending)
        × ((happen outer_cancelled (happen_all hs linked_pair)).outer ≡ Future.cancelled)
  unfolding happen transfer absorb_future
  shield_delivers hs o p q =
      let v = run-IsSound hs in (ground (arith, v.linked p, v.settled), ground arith, ground arith)
