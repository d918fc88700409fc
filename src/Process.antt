-- ===== src/Process.antt =====
-- `Process.wait` and `Process.send_signal` of src/aiodrive/modules/process.py. The events are the
-- cancellations of the waiting task and the end of the process; signals are numbers.
pub mod Laws
pub mod Ended
pub mod Reported
mod Tests
use aiodrive.Prelude.{◌==◌, if◌then◌else◌, ℕ, ◌+◌, Option, none, some, List, [], ◌∷◌, ◌++◌}
use aiodrive.Asyncio.{value_error, process_terminated, Outcome, returned, raised, Effect}
use aiodrive.Cancel.{ensure_correct_cancellation}

pub data Event : Type 0 where
  cancels : Event
  exits : ℕ → Event

-- The exit code once the process has ended, and the signals that were sent to it.
pub record Process : Type 0 where
  pub returncode : Option ℕ
  pub signals : List ℕ

unfoldable pub send_signal : ℕ → Process → Effect Process
send_signal signal p = elim p.returncode [
  | some code ↦ (p, some value_error)
  | none ↦ (record p { signals = p.signals ++ signal ∷ [] }, none)
]

-- The result of a wait, with the number of cancellations that it received.
pub data Wait : Type 0 where
  sleeps : Process → ℕ → Wait
  ends : Outcome (Unit {0}) → Process → ℕ → Wait

-- The end of the block: the check of the code.
abbrev pub check_code : ℕ → Outcome (Unit {0})
check_code code = if code == 0 then returned tt else raised (process_terminated code)

-- `_proc.wait()` in the `while` loop, where each cancellation sends `subsequent_signals`.
unfoldable pub wait_loop : ℕ → ℕ → Process → ℕ → List Event → Wait
unfolding ensure_correct_cancellation
wait_loop initial subsequent p count [] = sleeps p count
wait_loop initial subsequent p count (cancels ∷ es) =
    wait_loop initial subsequent (record p { signals = p.signals ++ subsequent ∷ [] }) (count + 1)
      es
wait_loop initial subsequent p count (exits code ∷ es) =
    ends (ensure_correct_cancellation initial count (check_code code))
      (record p { returncode = some code }) count

-- `wait`, with the count of the task when it is called.
unfoldable pub wait : ℕ → ℕ → ℕ → Process → List Event → Wait
unfolding wait_loop ensure_correct_cancellation
wait count first subsequent p [] = sleeps p count
wait count first subsequent p (cancels ∷ es) =
    wait_loop count subsequent (record p { signals = p.signals ++ first ∷ [] }) (count + 1) es
wait count first subsequent p (exits code ∷ es) =
    ends (ensure_correct_cancellation count count (check_code code))
      (record p { returncode = some code }) count
