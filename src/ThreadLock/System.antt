-- ===== src/ThreadLock/System.antt =====
-- Tasks and threads that use one `ThreadsafeLock` of src/aiodrive/modules/thread_safe_lock.py.
use aiodrive.Prelude.{
  ◌==◌, if◌then◌else◌, length, update, ℕ, ◌+◌, ◌-◌, ◌≤◌, ◌<◌, ◌≡◌, Bool, true, false, [],
}
use aiodrive.ThreadLock.{
  ThreadsafeLock, new_lock, enters, waits, acquire_sync, acquire_sync_end, acquire_async,
  release_async,
}

-- `holders` counts those to whom the lock was given and who have not released it, `blocked` the
-- threads that wait for `_sync_lock`, and `arriving` those that have it and are still in
-- `acquire_sync`.
pub record System : Type 0 where
  pub lock : ThreadsafeLock
  pub holders : ℕ
  pub blocked : ℕ
  pub arriving : ℕ

-- Whoever was served by a release holds the lock.
abbrev pub served : ThreadsafeLock → ThreadsafeLock → ℕ
served l l' = if length l'.signalled == length l.signalled then 0 else 1

pub data Step (s : System) : System → Type 0 where
  enters_async :
      (future : ℕ) (l : ThreadsafeLock)
      → acquire_async future s.lock ≡ enters l
      → Step s (record s { lock = l; holders = s.holders + 1 })
  waits_async :
      (future : ℕ) (l : ThreadsafeLock)
      → acquire_async future s.lock ≡ waits l
      → Step s (record s { lock = l })
  enters_sync :
      (l : ThreadsafeLock)
      → acquire_sync s.lock ≡ enters l
      → Step s (record s { lock = l; holders = s.holders + 1 })
  waits_sync :
      (l : ThreadsafeLock)
      → acquire_sync s.lock ≡ waits l
      → Step s (record s { lock = l; blocked = s.blocked + 1 })
  -- A blocked thread takes `_sync_lock`.
  wakes_sync :
      0 < s.blocked
      → s.lock.sync_locked ≡ false
      → Step s (record s {
        lock = record s.lock { sync_locked = true };
        holders = s.holders + 1;
        blocked = s.blocked - 1;
        arriving = s.arriving + 1;
      })
  arrives :
      0 < s.arriving
      → Step s (record s { lock = acquire_sync_end s.lock; arriving = s.arriving - 1 })
  -- A waiting task is cancelled.
  gives_up :
      (future : ℕ)
      → Step s
          (record s { lock = record s.lock { cancelled = update s.lock.cancelled future true } })
  -- A holder that has left its acquisition releases.
  releases :
      s.arriving < s.holders
      → Step s (record s {
        lock = release_async s.lock;
        holders = s.holders - 1 + served s.lock (release_async s.lock);
      })

pub data Reach (closed : ℕ → Bool) : System → Type 0 where
  here : Reach closed (record { lock = new_lock closed; holders = 0; blocked = 0; arriving = 0 })
  next : {s t : System} → Reach closed s → Step s t → Reach closed t

pub record Inv (s : System) : Type 0 where
  pub counted : s.lock.sync_waiter_count ≡ s.blocked + s.arriving
  pub held : s.lock.sync_locked ≡ true → s.holders ≡ 1
  pub free_now : s.lock.sync_locked ≡ false → s.holders ≡ 0
  pub arrived : s.arriving ≤ s.holders
  pub unlocked :
      s.lock.locked ≡ false → (s.lock.sync_locked ≡ false) × (s.blocked ≡ 0) × (s.lock.waiters ≡ [])
  pub due : s.lock.locked ≡ true → s.lock.sync_locked ≡ false → 0 < s.blocked
