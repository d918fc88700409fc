-- ===== src/ThreadLock.antt =====
-- `ThreadsafeLock` of src/aiodrive/modules/thread_safe_lock.py. What runs under `_state_lock` is
-- one step, and so is what a thread does between two such parts. A waiting task is the number of
-- its future.
pub mod System
pub mod Exclusion
pub mod Condition
pub mod Notified
pub mod Waiters
mod Tests
use aiodrive.Prelude.{
  ◌==◌, if◌then◌else◌, ℕ, ◌+◌, ◌-◌, Bool, true, false, not, ◌||◌, List, [], ◌∷◌, ◌++◌,
}

-- `cancelled` and `closed` say of each future whether it was cancelled, and whether its event loop
-- is closed, and `signalled` lists the futures whose result has been scheduled.
pub record ThreadsafeLock : Type 0 where
  pub locked : Bool
  pub waiters : List ℕ
  pub sync_locked : Bool
  pub sync_waiter_count : ℕ
  pub cancelled : ℕ → Bool
  pub closed : ℕ → Bool
  pub signalled : List ℕ

unfoldable pub new_lock : (ℕ → Bool) → ThreadsafeLock
new_lock closed = record {
  locked = false;
  waiters = [];
  sync_locked = false;
  sync_waiter_count = 0;
  cancelled = λ _. false;
  closed = closed;
  signalled = [];
}

-- What the first part of an acquisition leads to: the lock is held, the caller waits, or it is
-- stuck on `_sync_lock` with `_state_lock` in its hands.
pub data Attempt : Type 0 where
  enters waits sticks : ThreadsafeLock → Attempt

-- The branch of both methods for a lock that is not locked.
abbrev pub enter : ThreadsafeLock → Attempt
enter l =
    if l.sync_locked then sticks l else enters (record l { sync_locked = true; locked = true })

unfoldable pub acquire_sync : ThreadsafeLock → Attempt
acquire_sync l =
    if not l.locked
    then enter l
    else waits (record l { sync_waiter_count = l.sync_waiter_count + 1 })

-- `acquire_sync` after its wait for `_sync_lock`.
unfoldable pub acquire_sync_end : ThreadsafeLock → ThreadsafeLock
acquire_sync_end l = record l { sync_waiter_count = l.sync_waiter_count - 1 }

unfoldable pub acquire_async : ℕ → ThreadsafeLock → Attempt
acquire_async future l =
    if not l.locked then enter l else waits (record l { waiters = l.waiters ++ future ∷ [] })

-- The `else` branch of the loop of `release_async`.
abbrev pub free : ThreadsafeLock → ThreadsafeLock
free l = record l {
  waiters = [];
  locked = if l.sync_waiter_count == 0 then false else l.locked;
  sync_locked = false;
}

-- The loop: a future that is cancelled or whose loop is closed is passed over.
abbrev pub serve : List ℕ → ThreadsafeLock → ThreadsafeLock
serve [] l = free l
serve (future ∷ rest) l =
    let after = serve rest l in
    if l.cancelled future || l.closed future
    then after
    else record l { waiters = rest; signalled = future ∷ l.signalled }

unfoldable pub release_async : ThreadsafeLock → ThreadsafeLock
release_async l = serve l.waiters l
