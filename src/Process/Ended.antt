-- ===== src/Process/Ended.antt =====
-- `process_exists`, `wait_for_process` and `reap_child_process` of src/aiodrive/modules/process.py.
-- What the operating system answers is given: whether kqueue and pidfd are there, what asking for
-- the process there comes to, and what each `os.kill(pid, 0)` says.
use aiodrive.Prelude.{
  if◌then◌else◌, any, ℕ, Bool, true, false, not, ◌&&◌, Option, none, some, List, [], ◌∷◌,
}
use aiodrive.Asyncio.{Exn, cancelled_error, other, Outcome, returned, raised}
use aiodrive.Shield.{Event, suspended, completed, spinning}
use aiodrive.ThreadLoop.{to_thread}

pub data Kill : Type 0 where
  found no_process no_permission : Kill

-- `process_exists`.
unfoldable pub process_exists : Kill → Bool
process_exists found = true
process_exists no_process = false
process_exists no_permission = true

-- `manager.update` with the process, and `os.pidfd_open`.
pub data Opening : Type 0 where
  opened unknown_process refused : Opening

-- What a task that waits sees: a cancellation, or the end of the process.
pub data Notice : Type 0 where
  interruption process_exit : Notice

-- The result of a wait: it goes on, it answers with the notices to come, or it raises.
pub data Waited : Type 0 where
  waits : Waited
  answers : Bool → List Notice → Waited
  fails : Exn → Waited

-- `await future`, whose callback sets the result at the end of the process.
abbrev pub await_exit : List Notice → Waited
await_exit [] = waits
await_exit (interruption ∷ ns) = fails cancelled_error
await_exit (process_exit ∷ ns) = answers true ns

-- `refused` stands for any other exception of `manager.update`, which is passed on.
unfoldable pub wait_for_process_kqueue : Bool → Opening → List Notice → Waited
wait_for_process_kqueue has_kqueue o ns =
    if has_kqueue
    then elim o [
      | opened ↦ await_exit ns
      | unknown_process ↦ answers true ns
      | refused ↦ fails (other 0)
    ]
    else answers false ns

-- `refused` stands for `OSError`.
unfoldable pub wait_for_process_pidfd : Bool → Opening → List Notice → Waited
wait_for_process_pidfd has_pidfd o ns =
    if has_pidfd
    then elim o [
      | opened ↦ await_exit ns
      | unknown_process ↦ answers true ns
      | refused ↦ answers false ns
    ]
    else answers false ns

-- Whether the descriptor of a wait is open afterwards: the event manager closes its own, and
-- `finally` that of the process, when the wait does not go on.
abbrev pub descriptor_open : Bool → Opening → Waited → Bool
descriptor_open available opened waits = available
descriptor_open available _ _ = false

-- The rounds of the `while` loop: what `os.kill` says, or a cancellation of the sleep before it.
pub data Round : Type 0 where
  asks : Kill → Round
  interrupted : Round

unfoldable pub poll_loop : List Round → Outcome (Option (Unit {0}))
unfolding process_exists
poll_loop [] = returned none
poll_loop (interrupted ∷ rs) = raised cancelled_error
poll_loop (asks k ∷ rs) =
    let rest = poll_loop rs in if process_exists k then rest else returned (some tt)

pub record Platform : Type 0 where
  pub has_kqueue : Bool
  pub kqueue : Opening
  pub has_pidfd : Bool
  pub pidfd : Opening

-- The two waits of the system in their order, `await a or await b`.
abbrev pub or_else : Waited → (List Notice → Waited) → Waited
or_else waits f = waits
or_else (answers true ns) f = answers true ns
or_else (answers false ns) f = f ns
or_else (fails e) f = fails e

abbrev pub system_wait : Platform → List Notice → Waited
system_wait p ns =
    or_else (wait_for_process_kqueue p.has_kqueue p.kqueue ns)
      (wait_for_process_pidfd p.has_pidfd p.pidfd)

-- `wait_for_process`: `none` while it waits.
unfoldable pub wait_for_process : Platform → List Notice → List Round → Outcome (Option (Unit {0}))
unfolding wait_for_process_kqueue wait_for_process_pidfd poll_loop
wait_for_process p ns rs = elim (system_wait p ns) [
  | waits ↦ returned none
  | fails e ↦ raised e
  | answers ended rest ↦ if ended then returned (some tt) else poll_loop rs
]

abbrev pub decoded : (ℕ → ℕ) → Outcome ℕ → Outcome ℕ
decoded exit_code (returned status) = returned (exit_code status)
decoded exit_code (raised e) = raised e

-- `reap_child_process`: `status` is what `os.waitpid` comes to, called here or, on the fuel and the
-- events of `to_thread`, in a thread; `none` while it waits.
unfoldable pub reap_child_process :
    (ℕ → ℕ) → ℕ → Platform → List Notice → Outcome ℕ → List (Event ℕ) → Option (Outcome ℕ)
unfolding wait_for_process_kqueue wait_for_process_pidfd to_thread
reap_child_process exit_code fuel p ns status es = elim (system_wait p ns) [
  | waits ↦ none
  | fails e ↦ some (raised e)
  | answers ended rest ↦
      if ended then some (decoded exit_code status) else elim (to_thread fuel es) [
        | suspended t ↦ none
        | spinning ↦ none
        | completed o t ↦ some (decoded exit_code o)
      ]
]

-- What the system has told of the process: that it does not exist, or that it has ended.
abbrev pub is_exit : Notice → Bool
is_exit process_exit = true
is_exit interruption = false

abbrev pub is_gone : Round → Bool
is_gone (asks no_process) = true
is_gone _ = false

abbrev pub is_quiet : Round → Bool
is_quiet interrupted = false
is_quiet (asks k) = true

abbrev pub told : Opening → List Notice → Bool
told opened ns = any is_exit ns
told unknown_process ns = true
told refused ns = false

abbrev pub is_refused : Opening → Bool
is_refused refused = true
is_refused _ = false

abbrev pub is_reported : Platform → List Notice → List Round → Bool
is_reported p ns rs =
    if p.has_kqueue
    then told p.kqueue ns
    else if p.has_pidfd && not (is_refused p.pidfd)
    then told p.pidfd ns
    else any is_gone rs
