-- ===== src/SmartLock/Exclusion.antt =====
-- The owners of a SmartLock of src/aiodrive/experiments/smart_lock.py.
use aiodrive.Prelude.{
  ◌==◌, Bool-cases, Option-cases, length, any, ℕ, ◌≤◌, ◌≡◌, refl, sym, ap, subst, ◌⊎◌, inl, inr,
  Bool, true, false, not, ◌&&◌, none, some, List, [], ◌∷◌, ◌++◌, arith,
}
use aiodrive.SmartLock.{
  SmartLockMode, SmartLockWaiter, SmartLockOwner, SmartLock, new_smart, is_exclusive, set_key,
  pop_key, blocked, serve, cancel_blocking, press_owners, or_press, update_lock, use_lock,
  set_scope, enter_lock, leave_lock,
}

abbrev pub all_shared : List (ℕ × SmartLockOwner) → Bool
all_shared [] = true
all_shared ((k, owner) ∷ owners) = not (is_exclusive owner.waiter.mode) && all_shared owners

-- All owners share the lock, or there is one at most.
abbrev pub IsExclusive : List (ℕ × SmartLockOwner) → Type 0
IsExclusive owners = (all_shared owners ≡ true) ⊎ (length owners ≤ 1)

all_shared-set_key :
    (k : ℕ) (o : SmartLockOwner) (os : List (ℕ × SmartLockOwner))
    → is_exclusive o.waiter.mode ≡ false
    → all_shared os ≡ true
    → all_shared (set_key k o os) ≡ true
all_shared-set_key k o [] e h = ground arith
all_shared-set_key k o ((j, p) ∷ os) e h = ground (arith, all_shared-set_key k o os e)

all_shared-pop_key :
    (k : ℕ) (os : List (ℕ × SmartLockOwner))
    → all_shared os ≡ true
    → all_shared (pop_key k os) ≡ true
all_shared-pop_key k [] h = refl
all_shared-pop_key k ((j, p) ∷ os) h = ground (arith, all_shared-pop_key k os)

length-pop_key : (k : ℕ) (os : List (ℕ × SmartLockOwner)) → length (pop_key k os) ≤ length os
length-pop_key k [] = omega arith
length-pop_key k ((j, p) ∷ os) = ground (arith, length-pop_key k os)

-- A waiter that nobody blocks is alone or shares the lock.
unblocked :
    (w : SmartLockWaiter) (os : List (ℕ × SmartLockOwner))
    → blocked w os ≡ false
    → (os ≡ []) ⊎ ((is_exclusive w.mode ≡ false) × (all_shared os ≡ true))
unblocked w [] b = inl refl
unblocked w ((k, o) ∷ os) b = inr (elim (unblocked w os (ground arith)) [
  | inl e ↦ rw e (ground arith)
  | inr (x, s) ↦ (x, ground arith)
])

set_scope-all_shared :
    (k : ℕ) (os : List (ℕ × SmartLockOwner)) → all_shared (set_scope k os) ≡ all_shared os
set_scope-all_shared k [] = refl
set_scope-all_shared k ((j, p) ∷ os) = ground (arith, set_scope-all_shared k os)

length-set_scope : (k : ℕ) (os : List (ℕ × SmartLockOwner)) → length (set_scope k os) ≡ length os
length-set_scope k [] = refl
length-set_scope k ((j, p) ∷ os) = ground (arith, length-set_scope k os)

cancel_blocking-all_shared :
    (w : SmartLockWaiter) (os : List (ℕ × SmartLockOwner))
    → (all_shared (cancel_blocking w os) ≡ all_shared os)
      × (length (cancel_blocking w os) ≡ length os)
unfolding cancel_blocking
cancel_blocking-all_shared w [] = (refl, refl)
cancel_blocking-all_shared w ((j, p) ∷ os) = ground (arith, cancel_blocking-all_shared w os)

serve-IsExclusive :
    (ws : List (ℕ × SmartLockWaiter)) (l l' : SmartLock)
    → serve ws l ≡ some l'
    → IsExclusive l.owners
    → IsExclusive l'.owners
unfolding serve
serve-IsExclusive [] l l' e x = cc
serve-IsExclusive ((k, w) ∷ ws) l l' e x = elim (Bool-cases (blocked w l.owners)) [
  | inl t ↦ serve-IsExclusive ws l l' (ground arith) x
  | inr n ↦
      let o : SmartLockOwner = record { waiter = w; context_scope = none } in
      let q : l'.owners ≡ set_key k o l.owners = ground arith in
      rw q (elim (unblocked w l.owners n) [
        | inl z ↦ rw z (inr (omega arith))
        | inr (m, s) ↦ inl (all_shared-set_key k o l.owners m s)
      ])
]

press_owners-IsExclusive :
    (ws : List (ℕ × SmartLockWaiter)) (l : SmartLock)
    → IsExclusive l.owners
    → IsExclusive (press_owners ws l).owners
unfolding press_owners
press_owners-IsExclusive [] l x = x
press_owners-IsExclusive ((k, w) ∷ ws) l x = elim (Bool-cases w.weak) [
  | inl t ↦ rw t (press_owners-IsExclusive ws l x)
  | inr n ↦ rw n (ground (arith, cancel_blocking-all_shared w l.owners))
]

update_lock-IsExclusive :
    (l : SmartLock) → IsExclusive l.owners → IsExclusive (update_lock l).owners
unfolding update_lock
update_lock-IsExclusive l x = elim (Option-cases (serve l.waiters l)) [
  | inl e ↦ rw e (press_owners-IsExclusive l.waiters l x)
  | inr (l', e) ↦ rw e (serve-IsExclusive l.waiters l l' e x)
]

-- Calls of `use` begin, enter and leave in any order; a wait that is cancelled leaves too.
pub data Reach : SmartLock → Type 0 where
  unused : Reach new_smart
  uses :
      {l : SmartLock} (mode : SmartLockMode) (weak : Bool) → Reach l → Reach (use_lock mode weak l)
  enters : {l : SmartLock} (k : ℕ) → Reach l → Reach (enter_lock k l)
  leaves : {l : SmartLock} (k : ℕ) → Reach l → Reach (leave_lock k l)

-- Whatever calls of `use` there are, in whatever order they enter and leave: there is one owner at
-- most, or none of the owners is exclusive.
pub Reach-IsExclusive : {l : SmartLock} → Reach l → IsExclusive l.owners
unfolding new_smart use_lock enter_lock leave_lock
Reach-IsExclusive unused = inl refl
Reach-IsExclusive (uses {l} mode weak r) = update_lock-IsExclusive _ (Reach-IsExclusive r)
Reach-IsExclusive (enters {l} k r) =
    ground
      (arith, Reach-IsExclusive r, set_scope-all_shared k l.owners, length-set_scope k l.owners)
Reach-IsExclusive (leaves {l} k r) =
    let left : SmartLock = record l {
      owners = pop_key k l.owners;
      waiters = pop_key k l.waiters;
    } in
    update_lock-IsExclusive left (
      ground (arith, Reach-IsExclusive r, all_shared-pop_key k l.owners, length-pop_key k l.owners))

blocked-all_shared :
    (w : SmartLockWaiter) (os : List (ℕ × SmartLockOwner))
    → is_exclusive w.mode ≡ false
    → all_shared os ≡ true
    → blocked w os ≡ false
blocked-all_shared w [] m s = refl
blocked-all_shared w ((k, o) ∷ os) m s = ground (arith, blocked-all_shared w os)

abbrev pub ids : List (ℕ × SmartLockOwner) → List ℕ
ids [] = []
ids ((k, o) ∷ os) = k ∷ ids os

ids-set_key :
    (k : ℕ) (o : SmartLockOwner) (os : List (ℕ × SmartLockOwner))
    → any (λ j. j == k) (ids os) ≡ true
    → ids (set_key k o os) ≡ ids os
ids-set_key k o [] h = cc
ids-set_key k o ((j, p) ∷ os) h = elim (Bool-cases (j == k)) [
  | inl e ↦ rw e refl
  | inr n ↦ rw n (ap (λ ks. j ∷ ks) (ids-set_key k o os (ground arith)))
]

-- While the first of the waiters owns the lock and shares it, and the other owners share it too,
-- nobody else is served, whoever waits: `_update` resolves the future of that owner once more.
pub update_lock-repeats :
    (l : SmartLock) (k : ℕ) (w : SmartLockWaiter) (ws : List (ℕ × SmartLockWaiter))
    → l.waiters ≡ (k, w) ∷ ws
    → is_exclusive w.mode ≡ false
    → all_shared l.owners ≡ true
    → any (λ j. j == k) (ids l.owners) ≡ true
    → (ids (update_lock l).owners ≡ ids l.owners)
      × ((update_lock l).resolved ≡ l.resolved ++ k ∷ [])
unfolding update_lock serve
update_lock-repeats l k w ws e m s h =
    let o : SmartLockOwner = record { waiter = w; context_scope = none } in
    let served : SmartLock = record l {
      resolved = l.resolved ++ k ∷ [];
      owners = set_key k o l.owners;
    } in
    let b : serve ((k, w) ∷ ws) l ≡ some served = rw (blocked-all_shared w l.owners m s) refl in
    let q : serve l.waiters l ≡ some served = subst (λ x. serve x l ≡ some served) (sym e) b in
    (
      subst (λ x. ids (or_press x l).owners ≡ ids l.owners) (sym q) (ids-set_key k o l.owners h),
      subst (λ x. (or_press x l).resolved ≡ l.resolved ++ k ∷ []) (sym q) refl,
    )
