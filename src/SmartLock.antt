-- ===== src/SmartLock.antt =====
-- src/aiodrive/experiments/smart_lock.py: `SmartLock`, whose owners and waiters are dictionaries
-- by id in the order of insertion. Each operation runs under the lock `_sync_lock`. The scope
-- 'global', 'task', 'thread' or 'context' of a waiter, which nothing reads, is left out.
pub mod Exclusion
mod Tests
use aiodrive.Prelude.{
  ◌==◌, if◌then◌else◌, ℕ, ◌+◌, Bool, true, false, ◌||◌, Option, none, some, List, [], ◌∷◌, ◌++◌,
}

pub data SmartLockMode : Type 0 where
  exclusive shared : SmartLockMode

pub record SmartLockWaiter : Type 0 where
  pub mode : SmartLockMode
  pub weak : Bool

-- Of `context_scope`, the number of cancellations.
pub record SmartLockOwner : Type 0 where
  pub waiter : SmartLockWaiter
  pub context_scope : Option ℕ

-- `resolved` are the ids on whose future `set_result` has been scheduled.
pub record SmartLock : Type 0 where
  pub next_waiter_id : ℕ
  pub owners : List (ℕ × SmartLockOwner)
  pub waiters : List (ℕ × SmartLockWaiter)
  pub resolved : List ℕ

unfoldable pub new_smart : SmartLock
new_smart = record { next_waiter_id = 0; owners = []; waiters = []; resolved = [] }

abbrev pub is_exclusive : SmartLockMode → Bool
is_exclusive exclusive = true
is_exclusive shared = false

module _ {A : Type 0} where
  -- `dict[key] = value`.
  abbrev pub set_key : ℕ → A → List (ℕ × A) → List (ℕ × A)
  set_key k v [] = (k, v) ∷ []
  set_key k v ((j, w) ∷ xs) = if j == k then (j, v) ∷ xs else (j, w) ∷ set_key k v xs

  -- `dict.pop(key, None)`.
  abbrev pub pop_key : ℕ → List (ℕ × A) → List (ℕ × A)
  pop_key k [] = []
  pop_key k ((j, w) ∷ xs) = if j == k then xs else (j, w) ∷ pop_key k xs

abbrev pub is_blocking : SmartLockWaiter → SmartLockOwner → Bool
is_blocking waiter owner = is_exclusive waiter.mode || is_exclusive owner.waiter.mode

abbrev pub blocked : SmartLockWaiter → List (ℕ × SmartLockOwner) → Bool
blocked waiter [] = false
blocked waiter ((k, owner) ∷ owners) = is_blocking waiter owner || blocked waiter owners

-- The first loop of `_update`, with the waiters that are left; nothing if it does not break.
unfoldable pub serve : List (ℕ × SmartLockWaiter) → SmartLock → Option SmartLock
serve [] l = none
serve ((k, waiter) ∷ ws) l =
    let rest = serve ws l in
    if blocked waiter l.owners
    then rest
    else some (record l {
      resolved = l.resolved ++ k ∷ [];
      owners = set_key k (record { waiter = waiter; context_scope = none }) l.owners;
    })

-- `scope.cancel()` on the owners that block the waiter, unless they are cancelled already.
abbrev pub cancel_scope : Option ℕ → Option ℕ
cancel_scope none = none
cancel_scope (some n) = if n == 0 then some 1 else some n

unfoldable pub cancel_blocking :
    SmartLockWaiter → List (ℕ × SmartLockOwner) → List (ℕ × SmartLockOwner)
cancel_blocking waiter [] = []
cancel_blocking waiter ((k, owner) ∷ owners) =
    let rest = cancel_blocking waiter owners in
    if is_blocking waiter owner
    then (k, record owner { context_scope = cancel_scope owner.context_scope }) ∷ rest
    else (k, owner) ∷ rest

-- The second loop, over the waiters that are not weak.
unfoldable pub press_owners : List (ℕ × SmartLockWaiter) → SmartLock → SmartLock
unfolding cancel_blocking
press_owners [] l = l
press_owners ((k, waiter) ∷ ws) l =
    let rest = press_owners ws l in
    if waiter.weak then rest else record l { owners = cancel_blocking waiter l.owners }

abbrev pub or_press : Option SmartLock → SmartLock → SmartLock
or_press (some served) l = served
or_press none l = press_owners l.waiters l

unfoldable pub update_lock : SmartLock → SmartLock
unfolding serve press_owners
update_lock l = or_press (serve l.waiters l) l

-- `use` up to its wait; the id is the old `next_waiter_id`.
unfoldable pub use_lock : SmartLockMode → Bool → SmartLock → SmartLock
unfolding update_lock
use_lock mode weak l = update_lock (record l {
  next_waiter_id = l.next_waiter_id + 1;
  waiters = l.waiters ++ (l.next_waiter_id, record { mode = mode; weak = weak }) ∷ [];
})

abbrev pub set_scope : ℕ → List (ℕ × SmartLockOwner) → List (ℕ × SmartLockOwner)
set_scope k [] = []
set_scope k ((j, owner) ∷ owners) =
    if j == k
    then (j, record owner { context_scope = some 0 }) ∷ owners
    else (j, owner) ∷ set_scope k owners

-- The wait is over: the scope is entered.
unfoldable pub enter_lock : ℕ → SmartLock → SmartLock
enter_lock k l = record l { owners = set_scope k l.owners }

-- The `finally` of `use`.
unfoldable pub leave_lock : ℕ → SmartLock → SmartLock
unfolding update_lock
leave_lock k l =
    update_lock (record l { owners = pop_key k l.owners; waiters = pop_key k l.waiters })
