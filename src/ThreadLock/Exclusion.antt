-- ===== src/ThreadLock/Exclusion.antt =====
-- At most one task or thread holds a `ThreadsafeLock` of
-- src/aiodrive/modules/thread_safe_lock.py.
use aiodrive.Prelude.{
  if◌then◌else◌, ℕ, ◌+◌, ◌-◌, ◌≤◌, ◌<◌, ◌≡◌, refl, sym, ap, ◌∙◌, subst, ◌⊎◌, inl, inr, Bool, true,
  false, ◌||◌, List, [], ◌∷◌, ◌++◌, arith,
}
use aiodrive.ThreadLock.{
  ThreadsafeLock, new_lock, Attempt, enters, waits, sticks, acquire_sync, acquire_sync_end,
  acquire_async, free, serve, release_async,
}
use aiodrive.ThreadLock.System.{
  System, served, Step, enters_async, waits_async, enters_sync, waits_sync, wakes_sync, arrives,
  gives_up, releases, Reach, here, next, Inv,
}

abbrev entered : ThreadsafeLock → ThreadsafeLock
entered l = record l { sync_locked = true; locked = true }

async_enters :
    (future : ℕ) (l l' : ThreadsafeLock)
    → acquire_async future l ≡ enters l'
    → (l.locked ≡ false) × (entered l ≡ l')
unfolding acquire_async
async_enters future l l' e = ground arith

sync_enters :
    (l l' : ThreadsafeLock) → acquire_sync l ≡ enters l' → (l.locked ≡ false) × (entered l ≡ l')
unfolding acquire_sync
sync_enters l l' e = ground arith

async_waits :
    (future : ℕ) (l l' : ThreadsafeLock)
    → acquire_async future l ≡ waits l'
    → (l.locked ≡ true) × (record l { waiters = l.waiters ++ future ∷ [] } ≡ l')
unfolding acquire_async
async_waits future l l' e = ground arith

sync_waits :
    (l l' : ThreadsafeLock)
    → acquire_sync l ≡ waits l'
    → (l.locked ≡ true) × (record l { sync_waiter_count = l.sync_waiter_count + 1 } ≡ l')
unfolding acquire_sync
sync_waits l l' e = ground arith

enter-Inv :
    (s : System)
    → s.lock.locked ≡ false
    → Inv s
    → Inv (record s { lock = entered s.lock; holders = s.holders + 1 })
enter-Inv s n inv =
    let (u, b, w) = inv.unlocked n in
    record {
      counted = inv.counted;
      held = λ _. omega (arith, inv.free_now u);
      free_now = λ e. absurd (ground arith);
      arrived = omega (arith, inv.arrived);
      unlocked = λ e. absurd (ground arith);
      due = λ _ e. absurd (ground arith);
    }

Bool-cases : (b : Bool) → (b ≡ true) ⊎ (b ≡ false)
Bool-cases true = inl refl
Bool-cases false = inr refl

serve_cases :
    (ws : List ℕ) (l : ThreadsafeLock)
    → (serve ws l ≡ free l)
      ⊎ ((future : ℕ) × (rest : List ℕ) × (serve ws l
            ≡ record l { waiters = rest; signalled = future ∷ l.signalled }))
serve_cases [] l = inl refl
serve_cases (w ∷ ws) l = elim (Bool-cases (l.cancelled w || l.closed w)) [
  | inl t ↦ elim (serve_cases ws l) [
    | inl f ↦ inl (
        ap (λ b. if b then serve ws l else record l { waiters = ws; signalled = w ∷ l.signalled }) t
        ∙ f)
    | inr (v, rest, f) ↦ inr (
      v,
      rest,
      ap (λ b. if b then serve ws l else record l { waiters = ws; signalled = w ∷ l.signalled }) t
          ∙ f,
    )
  ]
  | inr n ↦ inr (
    w,
    ws,
    ap (λ b. if b then serve ws l else record l { waiters = ws; signalled = w ∷ l.signalled }) n,
  )
]

holder_alone :
    (s : System)
    → s.arriving < s.holders
    → Inv s
    → (s.holders ≡ 1) × (s.arriving ≡ 0) × (s.lock.locked ≡ true)
holder_alone s h inv = elim (Bool-cases s.lock.sync_locked) [
  | inl t ↦ (
    inv.held t,
    omega (arith, inv.held t),
    elim (Bool-cases s.lock.locked) [ inl y ↦ y | inr n ↦ absurd (ground (arith, inv.unlocked n)) ],
  )
  | inr n ↦ absurd (omega (arith, inv.free_now n))
]

free-Inv :
    (s : System)
    → s.arriving < s.holders
    → Inv s
    → Inv (record s { lock = free s.lock; holders = s.holders - 1 + served s.lock (free s.lock) })
free-Inv s h inv =
    let (one, nobody, y) = holder_alone s h inv in
    let unserved : served s.lock (free s.lock) ≡ 0 = ground arith in
    record {
      counted = inv.counted;
      held = λ e. absurd (ground arith);
      free_now = λ _. omega (arith, one, unserved);
      arrived = omega (arith, nobody);
      unlocked = λ e. (refl, ground (arith, inv.counted), refl);
      due = λ e _. ground (arith, inv.counted, nobody);
    }

serve-Inv :
    (s : System) (future : ℕ) (rest : List ℕ)
    → s.arriving < s.holders
    → Inv s
    → (l : ThreadsafeLock)
    → l ≡ record s.lock { waiters = rest; signalled = future ∷ s.lock.signalled }
    → Inv (record s { lock = l; holders = s.holders - 1 + served s.lock l })
serve-Inv s future rest h inv l e =
    let (one, nobody, y) = holder_alone s h inv in
    let l' : ThreadsafeLock = record s.lock {
      waiters = rest;
      signalled = future ∷ s.lock.signalled;
    } in
    let handed : s.holders - 1 + served s.lock l' ≡ 1 = ground (arith, one) in
    subst (λ x. Inv (record s { lock = x; holders = s.holders - 1 + served s.lock x })) (sym e)
      (record {
        counted = inv.counted;
        held = λ _. handed;
        free_now = λ n. absurd (ground (arith, inv.free_now n, one));
        arrived = omega (arith, nobody);
        unlocked = λ n. absurd (ground arith);
        due = inv.due;
      })

Step-Inv : {s t : System} → Step s t → Inv s → Inv t
unfolding acquire_sync_end release_async
Step-Inv {s} (enters_async future l e) inv =
    let (n, f) = async_enters future s.lock l e in
    subst (λ x. Inv (record s { lock = x; holders = s.holders + 1 })) f (enter-Inv s n inv)
Step-Inv {s} (waits_async future l e) inv =
    let (y, f) = async_waits future s.lock l e in
    subst (λ x. Inv (record s { lock = x })) f
      (record {
        counted = inv.counted;
        held = inv.held;
        free_now = inv.free_now;
        arrived = inv.arrived;
        unlocked = λ n. absurd (ground arith);
        due = inv.due;
      })
Step-Inv {s} (enters_sync l e) inv =
    let (n, f) = sync_enters s.lock l e in
    subst (λ x. Inv (record s { lock = x; holders = s.holders + 1 })) f (enter-Inv s n inv)
Step-Inv {s} (waits_sync l e) inv =
    let (y, f) = sync_waits s.lock l e in
    subst (λ x. Inv (record s { lock = x; blocked = s.blocked + 1 })) f
      (record {
        counted = omega (arith, inv.counted);
        held = inv.held;
        free_now = inv.free_now;
        arrived = inv.arrived;
        unlocked = λ n. absurd (ground arith);
        due = λ _ _. omega arith;
      })
Step-Inv {s} (wakes_sync b n) inv = record {
  counted = omega (arith, inv.counted);
  held = λ _. omega (arith, inv.free_now n);
  free_now = λ e. absurd (ground arith);
  arrived = omega (arith, inv.arrived);
  unlocked = λ e. absurd (ground (arith, inv.unlocked e));
  due = λ _ e. absurd (ground arith);
}
Step-Inv {s} (arrives a) inv = record {
  counted = omega (arith, inv.counted);
  held = inv.held;
  free_now = inv.free_now;
  arrived = omega (arith, inv.arrived);
  unlocked = inv.unlocked;
  due = inv.due;
}
Step-Inv {s} (gives_up future) inv = record {
  counted = inv.counted;
  held = inv.held;
  free_now = inv.free_now;
  arrived = inv.arrived;
  unlocked = inv.unlocked;
  due = inv.due;
}
Step-Inv {s} (releases h) inv = elim (serve_cases s.lock.waiters s.lock) [
  | inl f ↦
      subst (λ x. Inv (record s { lock = x; holders = s.holders - 1 + served s.lock x })) (sym f)
        (free-Inv s h inv)
  | inr (future, rest, f) ↦ serve-Inv s future rest h inv (release_async s.lock) f
]

pub Reach-Inv : {closed : ℕ → Bool} {s : System} → Reach closed s → Inv s
unfolding new_lock
Reach-Inv here = record {
  counted = omega arith;
  held = λ e. absurd (ground arith);
  free_now = λ _. refl;
  arrived = omega arith;
  unlocked = λ _. (refl, refl, refl);
  due = λ e _. absurd (ground arith);
}
Reach-Inv (next p st) = Step-Inv st (Reach-Inv p)

abbrev pub is_stuck : Attempt → Bool
is_stuck (enters l) = false
is_stuck (waits l) = false
is_stuck (sticks l) = true

-- Whatever tasks and threads acquire, give up and release, in any order: at most one of them holds
-- the lock, and no acquisition waits for `_sync_lock` while it has `_state_lock`.
pub Reach-exclusive :
    {closed : ℕ → Bool} {s : System}
    → Reach closed s
    → (future : ℕ)
    → (s.holders ≤ 1)
      × (is_stuck (acquire_sync s.lock) ≡ false)
      × (is_stuck (acquire_async future s.lock) ≡ false)
unfolding acquire_sync acquire_async
Reach-exclusive {closed} {s} p future =
    let inv = Reach-Inv p in
    (
      elim (Bool-cases s.lock.sync_locked) [
        | inl t ↦ omega (arith, inv.held t)
        | inr n ↦ omega (arith, inv.free_now n)
      ],
      ground (arith, inv.unlocked),
      ground (arith, inv.unlocked),
    )

-- When nobody holds the lock, either it is free and nobody waits, or a blocked thread can take it.
pub Reach-available :
    {closed : ℕ → Bool} {s : System}
    → Reach closed s
    → s.holders ≡ 0
    → (s.lock.sync_locked ≡ false)
      × (((s.lock.locked ≡ true) × (0 < s.blocked))
          ⊎ ((s.lock.locked ≡ false) × (s.blocked ≡ 0) × (s.lock.waiters ≡ [])))
Reach-available {closed} {s} p h =
    let inv = Reach-Inv p in
    let n : s.lock.sync_locked ≡ false = elim (Bool-cases s.lock.sync_locked) [
      | inl t ↦ absurd (omega (arith, inv.held t))
      | inr n ↦ n
    ] in
    (
      n,
      elim (Bool-cases s.lock.locked) [
        | inl y ↦ inl (y, inv.due y n)
        | inr u ↦ let (x, b, w) = inv.unlocked u in inr (u, b, w)
      ],
    )
