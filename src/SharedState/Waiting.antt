-- ===== src/SharedState/Waiting.antt =====
-- Waiting for a state of src/aiodrive/modules/thread_safe_state.py: no change is missed.
use aiodrive.Prelude.{
  ◌==◌, if◌then◌else◌, Bool-cases, Option-cases, update, ℕ, ◌≤◌, ◌≡◌, inl, inr, Bool, true, false,
  some, List, [], ◌∷◌, arith,
}
use aiodrive.SharedState.{
  SharedState, Wait, returns, awaits, blocks, get, signal_all, update_value, observe, check_sync,
  runnable,
}

signal_all_mono :
    (closed : ℕ → Bool) (m : List (ℕ × ℕ)) (sig : ℕ → Bool) (f : ℕ)
    → sig f ≡ true
    → signal_all closed m sig f ≡ true
signal_all_mono closed [] sig f h = h
signal_all_mono closed ((k, g) ∷ m) sig f h =
    signal_all_mono closed m (if closed k then sig else update sig g true) f (ground arith)

signal_all-get :
    (closed : ℕ → Bool) (m : List (ℕ × ℕ)) (sig : ℕ → Bool) (k f : ℕ)
    → closed k ≡ false
    → get k m ≡ some f
    → signal_all closed m sig f ≡ true
signal_all-get closed [] sig k f o e = cc
signal_all-get closed ((j, g) ∷ m) sig k f o e = elim (Bool-cases (j == k)) [
  | inl t ↦ signal_all_mono closed m (if closed j then sig else update sig g true) f (ground arith)
  | inr n ↦
      signal_all-get closed m (if closed j then sig else update sig g true) k f o (ground arith)
]

module _ {V : Type 0} (beq : V → V → Bool) (closed : ℕ → Bool) (loop : ℕ) (fn : V → Bool) where
  -- A state with one caller of `wait_until` on the event loop `loop`, or of `wait_until_sync`, among
  -- any others.
  pub record Watched : Type 0 where
    pub state : SharedState V
    pub call : Wait V

  abbrev pub observed : Wait V × SharedState V → Watched
  observed (c, s) = record { state = s; call = c }

  -- Any thread changes the value, any other task observes it, and the caller goes on if it can.
  pub data Step (w : Watched) : Watched → Type 0 where
    updates : (g : V → V) → Step w (record w { state = update_value beq closed g w.state })
    others : (k : ℕ) (p : V → Bool) → Step w (record w { state = (observe k p w.state).1 })
    goes_on :
        (f : ℕ)
        → w.call ≡ awaits f
        → runnable w.call w.state ≡ true
        → Step w (observed (observe loop fn w.state))
    goes_on_sync :
        (n : ℕ)
        → w.call ≡ blocks n
        → runnable w.call w.state ≡ true
        → Step w (record w { call = check_sync fn w.state })

  pub data Reach (s : SharedState V) : Watched → Type 0 where
    async_call : Reach s (observed (observe loop fn s))
    sync_call : Reach s (record { state = s; call = check_sync fn s })
    next : {w w' : Watched} → Reach s w → Step w w' → Reach s w'

  -- A future that is not signalled is in the dictionary, and the value has not changed since.
  abbrev pub IsDue : SharedState V → Wait V → Type 0
  IsDue s (returns v) = fn v ≡ true
  IsDue s (awaits f) =
      (s.signalled f ≡ false) → (fn s.value ≡ false) × (get loop s.futures ≡ some f)
  IsDue s (blocks n) = (n ≤ s.notifications) × ((s.notifications ≡ n) → fn s.value ≡ false)

  observe-IsDue : (s : SharedState V) → IsDue (observe loop fn s).1 (observe loop fn s).0
  unfolding observe
  observe-IsDue s = elim (Bool-cases (fn s.value)) [
    | inl t ↦ rw t t
    | inr n ↦ rw n (elim (Option-cases (get loop s.futures)) [
      | inl z ↦ rw z (λ _. (n, ground arith))
      | inr (f, e) ↦ rw e (λ _. (n, e))
    ])
  ]

  update_value-IsDue :
      (g : V → V) (s : SharedState V) (c : Wait V)
      → closed loop ≡ false
      → IsDue s c
      → IsDue (update_value beq closed g s) c
  unfolding update_value
  update_value-IsDue g s (returns v) o d = d
  update_value-IsDue g s (awaits f) o d = λ h. ground (
    arith,
    d,
    signal_all_mono closed s.futures s.signalled f,
    signal_all-get closed s.futures s.signalled loop f o,
  )
  update_value-IsDue g s (blocks n) o d = ground (arith, d.1)

  others-IsDue :
      (k : ℕ) (p : V → Bool) (s : SharedState V) (c : Wait V)
      → IsDue s c
      → IsDue (observe k p s).1 c
  unfolding observe
  others-IsDue k p s (returns v) d = d
  others-IsDue k p s (awaits f) d = λ h. ground (arith, d)
  others-IsDue k p s (blocks n) d = ground (arith, d.1)

  check_sync-IsDue : (s : SharedState V) → IsDue s (check_sync fn s)
  unfolding check_sync
  check_sync-IsDue s = elim (Bool-cases (fn s.value)) [
    | inl t ↦ rw t t
    | inr n ↦ rw n (omega arith, λ _. n)
  ]

  Reach-IsDue :
      {s : SharedState V} {w : Watched} → closed loop ≡ false → Reach s w → IsDue w.state w.call
  Reach-IsDue {s} o async_call = observe-IsDue s
  Reach-IsDue {s} o sync_call = check_sync-IsDue s
  Reach-IsDue o (next {w} r (updates g)) = update_value-IsDue g w.state w.call o (Reach-IsDue o r)
  Reach-IsDue o (next {w} r (others k p)) = others-IsDue k p w.state w.call (Reach-IsDue o r)
  Reach-IsDue o (next {w} r (goes_on f e h)) = observe-IsDue w.state
  Reach-IsDue o (next {w} r (goes_on_sync n e h)) = check_sync-IsDue w.state

  -- What holds of a call that cannot go on.
  abbrev pub IsRight : Watched → Wait V → Type 0
  IsRight w (returns v) = fn v ≡ true
  IsRight w (awaits f) = fn w.state.value ≡ false
  IsRight w (blocks n) = fn w.state.value ≡ false

  right : (w : Watched) (c : Wait V) → IsDue w.state c → runnable c w.state ≡ false → IsRight w c
  unfolding runnable
  right w (returns v) d h = d
  right w (awaits f) d h = (d h).0
  right w (blocks n) d h = d.1 (ground (arith, d.0))

  -- Whatever threads change the value and whatever other tasks watch it, on any event loops: a
  -- caller of `wait_until` on a loop that is not closed, or of `wait_until_sync`, that cannot go on
  -- has returned a value on which its function holds, or its function does not hold on the present
  -- value. No change is missed.
  pub Reach-IsRight :
      {s : SharedState V} {w : Watched}
      → closed loop ≡ false
      → Reach s w
      → runnable w.call w.state ≡ false
      → IsRight w w.call
  Reach-IsRight {s} {w} o r h = right w w.call (Reach-IsDue o r) h
