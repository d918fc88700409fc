-- ===== src/ThreadLock/Tests.antt =====
-- A task that waits for a task, and gets the lock.
use aiodrive.Prelude.{ℕ, ◌+◌, ◌-◌, ◌≤◌, ◌≡◌, refl, Bool, true, false, [], ◌∷◌, arith}
use aiodrive.ThreadLock.{ThreadsafeLock, new_lock, acquire_sync, acquire_async, release_async}
use aiodrive.ThreadLock.System.{
  System, served, enters_async, waits_async, releases, Reach, here, next,
}
use aiodrive.ThreadLock.Exclusion.{is_stuck, Reach-exclusive}

-- No event loop is closed.
abbrev open_loops : ℕ → Bool
open_loops _ = false

abbrev held_lock : ThreadsafeLock
held_lock = record (new_lock open_loops) { sync_locked = true; locked = true }

abbrev waited_lock : ThreadsafeLock
waited_lock = record held_lock { waiters = 7 ∷ [] }

abbrev waited : System
waited = record { lock = waited_lock; holders = 0 + 1; blocked = 0; arriving = 0 }

waited-Reach : Reach open_loops waited
unfolding new_lock acquire_async
waited-Reach = next (next here (enters_async 3 held_lock refl)) (waits_async 7 waited_lock refl)

abbrev handed : System
handed = record waited {
  lock = release_async waited_lock;
  holders = waited.holders - 1 + served waited_lock (release_async waited_lock);
}

handed-Reach : Reach open_loops handed
handed-Reach = next waited-Reach (releases (omega arith))

Reach-exclusive_example :
    (handed.holders ≤ 1)
    × (is_stuck (acquire_sync handed.lock) ≡ false)
    × (is_stuck (acquire_async 9 handed.lock) ≡ false)
Reach-exclusive_example = Reach-exclusive handed-Reach 9
