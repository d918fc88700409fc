-- ===== src/Signals.antt =====
-- `wait_for_signal` and `watch_signal` of src/aiodrive/modules/signals.py. A signal is its code; the
-- event loop calls the handler that is registered for it, if there is one.
pub mod Seen
mod Tests
use aiodrive.Prelude.{
  ◌==◌, if◌then◌else◌, ℕ, Bool, true, false, ◌||◌, Option, none, some, List, [], ◌∷◌,
}
use aiodrive.Asyncio.{cancelled_error, Outcome, returned, raised}

-- `for ... add_signal_handler`, and the removal at the end: the codes that have a handler.
abbrev pub is_registered : ℕ → List ℕ → Bool
is_registered code [] = false
is_registered code (c ∷ cs) = c == code || is_registered code cs

-- What happens to a task that waits for a signal.
pub data Incident : Type 0 where
  arrives : ℕ → Incident
  interrupts : Incident

-- `wait_for_signal`: its outcome, `none` while it waits, and the codes that have a handler then.
unfoldable pub wait_for_signal : List ℕ → List Incident → Option (Outcome (Unit {0})) × List ℕ
wait_for_signal codes [] = (none, codes)
wait_for_signal codes (interrupts ∷ is) = (some (raised cancelled_error), [])
wait_for_signal codes (arrives code ∷ is) =
    let rest = wait_for_signal codes is in
    if is_registered code codes then (some (returned tt), []) else rest

-- `watch_signal`: the generator waits for its event, has yielded, or is closed.
pub data Phase : Type 0 where
  awaits yielded closed : Phase

pub record Watcher : Type 0 where
  pub handlers : List ℕ
  pub event : Bool
  pub phase : Phase

-- The start of the generator, up to `event.wait()`.
unfoldable pub start_watch : List ℕ → Watcher
start_watch codes = record { handlers = codes; event = false; phase = awaits }

-- `event.set`, as the handler of a registered code.
unfoldable pub receive_signal : ℕ → Watcher → Watcher
receive_signal code w = if is_registered code w.handlers then record w { event = true } else w

-- `event.wait()` returns, `event.clear()`, and `yield`; `none` while the event is not set.
unfoldable pub resume_watch : Watcher → Option Watcher
resume_watch w = if w.event then some (record w { event = false; phase = yielded }) else none

-- The consumer asks for the next item.
unfoldable pub ask_next : Watcher → Watcher
ask_next w = record w { phase = awaits }

-- The `finally` clause.
unfoldable pub close_watch : Watcher → Watcher
close_watch w = record w { handlers = []; phase = closed }
