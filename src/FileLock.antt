-- ===== src/FileLock.antt =====
-- src/aiodrive/modules/lock.py: `flock_kqueue`, over kqueue.py, as the methods of a state that is
-- shared with the other processes. What `flock` and `kqueue` do is the operating system's: an attempt
-- fails while a conflicting lock is held, and each unlocking of the file after the registration is
-- notified once.
pub mod Waking
pub mod Rounds
mod Tests
use aiodrive.Prelude.{◌==◌, if◌then◌else◌, ℕ, ◌-◌, Bool, true, false, Option, none, some}
use aiodrive.Asyncio.{Exn}
use aiodrive.Button.{new, await, Button, press}

-- `conflicts` counts the conflicting locks of others, `notifications` those of kqueue that have not
-- been read. `registered` holds inside the `with` block of the event manager, `waiting` is the
-- future of the button that is awaited, and `error` is what a callback has raised.
pub record FileLock : Type 0 where
  pub conflicts : ℕ
  pub notifications : ℕ
  pub registered : Bool
  pub locked : Bool
  pub button : Button
  pub waiting : Option ℕ
  pub error : Option Exn

unfoldable pub new_file_lock : ℕ → FileLock
unfolding new
new_file_lock conflicts = record {
  conflicts = conflicts;
  notifications = 0;
  registered = false;
  locked = false;
  button = new;
  waiting = none;
  error = none;
}

-- `with KqueueEventManager`: closing it drops what it has not read.
abbrev pub close_manager : FileLock → FileLock
close_manager l = record l { registered = false; notifications = 0; waiting = none }

-- One round of the loop, up to `await button` or `break`.
unfoldable pub attempt : FileLock → FileLock
unfolding await
attempt l =
    if l.conflicts == 0
    then close_manager (record l { locked = true })
    else record l { waiting = some (await l.button) }

abbrev pub press_button : FileLock → FileLock
press_button l = record l {
  button = (press l.button).0;
  error = elim l.error [ none ↦ (press l.button).1 | some e ↦ some e ];
}

-- From the start to the first `await`, or to the block.
unfoldable pub enter_flock : FileLock → FileLock
unfolding attempt new
enter_flock l =
    if l.conflicts == 0
    then record l { locked = true }
    else attempt (press_button (record l { button = new; registered = true }))

-- `internal_callback`, which reads one event, and `callback`.
unfoldable pub read_event : FileLock → FileLock
read_event l = press_button (record l { notifications = l.notifications - 1 })

-- `await button` raises `CancelledError`, which leaves the event manager and closes the file.
unfoldable pub interrupt_flock : FileLock → FileLock
interrupt_flock l = close_manager l

-- The `finally` clause after the block.
unfoldable pub leave_flock : FileLock → FileLock
leave_flock l = record l { locked = false }
