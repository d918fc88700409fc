-- ===== src/FileLock/Tests.antt =====
-- A caller that finds the file locked, and gets its lock when the other process unlocks.
use aiodrive.Prelude.{◌+◌, ◌<◌, refl, arith}
use aiodrive.Button.{new, call, await, woken, press}
use aiodrive.FileLock.{FileLock, new_file_lock, attempt, enter_flock, read_event}
use aiodrive.FileLock.Rounds.{others_unlock, enters, Reach, here, next}
use aiodrive.FileLock.Waking.{Reach-notified}

abbrev waiting_caller : FileLock
waiting_caller = enter_flock (new_file_lock 1)

waiting-Reach : Reach waiting_caller
unfolding new_file_lock
waiting-Reach = next (here 1) (enters refl refl)

abbrev unlocked_file : FileLock
unlocked_file = record waiting_caller { conflicts = 0; notifications = 1 }

unlocked-Reach : Reach unlocked_file
unfolding enter_flock attempt new_file_lock
unlocked-Reach = next waiting-Reach (others_unlock 1 (omega arith) (omega arith))

Reach-notified_example : 0 < unlocked_file.conflicts + unlocked_file.notifications
unfolding enter_flock attempt new_file_lock press call new await woken
Reach-notified_example = Reach-notified unlocked-Reach 1 refl refl

abbrev resumed_caller : FileLock
resumed_caller = attempt (read_event unlocked_file)
