-- ===== src/SharedState.antt =====
-- src/aiodrive/modules/thread_safe_state.py and experiments/thread_safe_event.py: a value that
-- tasks and threads watch. What runs under `_condition` is one step. Event loops are numbers;
-- futures are numbered in the order of their creation. `beq` is Python's `==` on the values.
pub mod Waiting
pub mod Launch
pub mod Stages
pub mod Event
mod Tests
use aiodrive.Prelude.{
  ltb, ◌==◌, if◌then◌else◌, update, ℕ, ◌+◌, Bool, true, false, Option, none, some, List, [], ◌∷◌,
}
use aiodrive.Asyncio.{runtime_error, Outcome, raised}

-- `futures` is the dictionary, `signalled` says whose result has been scheduled, and
-- `notifications` counts the calls of `notify_all`.
pub record SharedState (V : Type 0) : Type 0 where
  pub value : V
  pub futures : List (ℕ × ℕ)
  pub next_future : ℕ
  pub signalled : ℕ → Bool
  pub notifications : ℕ

-- Where a call stands: it has returned, a task awaits a future, or a thread is in `Condition.wait`
-- since so many notifications.
pub data Wait (V : Type 0) : Type 0 where
  returns : V → Wait V
  awaits : ℕ → Wait V
  blocks : ℕ → Wait V

abbrev pub get : ℕ → List (ℕ × ℕ) → Option ℕ
get k [] = none
get k ((j, f) ∷ m) = if j == k then some f else get k m

-- The loop over the futures; `call_soon_threadsafe` raises for a closed loop, which is ignored.
abbrev pub signal_all : (ℕ → Bool) → List (ℕ × ℕ) → (ℕ → Bool) → ℕ → Bool
signal_all closed [] signalled = signalled
signal_all closed ((k, f) ∷ m) signalled =
    signal_all closed m (if closed k then signalled else update signalled f true)

module _ {V : Type 0} where
  unfoldable pub new_state : V → SharedState V
  new_state v = record {
    value = v;
    futures = [];
    next_future = 0;
    signalled = λ _. false;
    notifications = 0;
  }

  -- `closed` says which event loops are closed.
  unfoldable pub update_value :
      (V → V → Bool) → (ℕ → Bool) → (V → V) → SharedState V → SharedState V
  update_value beq closed fn s = if beq s.value (fn s.value) then s else record s {
    value = fn s.value;
    futures = [];
    signalled = signal_all closed s.futures s.signalled;
    notifications = s.notifications + 1;
  }

  unfoldable pub set_value : (V → V → Bool) → (ℕ → Bool) → V → SharedState V → SharedState V
  unfolding update_value
  set_value beq closed v = update_value beq closed (λ _. v)

  -- One round of `_observe` on an event loop.
  unfoldable pub observe : ℕ → (V → Bool) → SharedState V → Wait V × SharedState V
  observe loop fn s = if fn s.value then (returns s.value, s) else elim (get loop s.futures) [
    | some f ↦ (awaits f, s)
    | none ↦ (
      awaits s.next_future,
      record s { futures = (loop, s.next_future) ∷ s.futures; next_future = s.next_future + 1 },
    )
  ]

  -- One round of `wait_until_sync`: `Condition.wait` begins before another thread can notify.
  unfoldable pub check_sync : (V → Bool) → SharedState V → Wait V
  check_sync fn s = if fn s.value then returns s.value else blocks s.notifications

  -- Whether a call can go on with its next round.
  unfoldable pub runnable : Wait V → SharedState V → Bool
  runnable (returns v) s = false
  runnable (awaits f) s = s.signalled f
  runnable (blocks n) s = ltb n s.notifications

-- The start of `wait`: `running` says whether the thread has a running event loop, without which
-- `asyncio.get_running_loop` raises.
unfoldable pub wait : Bool → Outcome (Unit {0})
wait running = if running then raised runtime_error else raised runtime_error
