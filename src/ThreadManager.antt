-- ===== src/ThreadManager.antt =====
-- src/aiodrive/modules/thread_manager.py: `ThreadManager`, whose calls run in the event loop of its
-- own thread. A call is known by its task identifier; `asyncio` runs the callbacks of the thread's
-- loop in the order in which they were scheduled, and those of a call's own loop likewise.
pub mod Steps
pub mod Invariant
pub mod Kept
pub mod Parts
pub mod Answers
pub mod Spawned
mod Tests
use aiodrive.Prelude.{
  if◌then◌else◌, update, ℕ, zero, suc, ◌+◌, not, ◌&&◌, Option, none, some, List, [], ◌∷◌, ◌++◌,
}
use aiodrive.Asyncio.{
  is_cancelled_error, Outcome, returned, raised, Future, is_done, Task, task_done,
}
use aiodrive.FutureState.{FutureState, absorb_awaitable}
use aiodrive.Scope.Guaranteed.{GuaranteedTask, new_guaranteed, guaranteed_cancel}
use aiodrive.Shield.{Event, asleep, resumed, Run, suspended, completed, spinning, await_shielded}

-- What is scheduled on the thread's event loop: `_create` and `_cancel`.
pub data Callback : Type 0 where
  creates cancels_call : ℕ → Callback

-- `callbacks` are those of the thread's loop; `transfers` are the states on their way to the future
-- of each call, which `futures` holds.
pub record Manager (A : Type 0) : Type 0 where
  pub next_task_id : ℕ
  pub tasks : ℕ → Option (GuaranteedTask A)
  pub callbacks : List Callback
  pub transfers : ℕ → List (FutureState A)
  pub futures : ℕ → Future A

module _ {A : Type 0} where
  unfoldable pub new_manager : Manager A
  new_manager = record {
    next_task_id = 0;
    tasks = λ id. none;
    callbacks = [];
    transfers = λ id. [];
    futures = λ id. Future.pending;
  }

  abbrev pub call_soon_threadsafe : Callback → Manager A → Manager A
  call_soon_threadsafe c m = record m { callbacks = m.callbacks ++ c ∷ [] }

  -- `spawn` before its loop: the identifier, and the manager afterwards.
  unfoldable pub manager_spawn : Manager A → ℕ × Manager A
  manager_spawn m =
      let task_id = m.next_task_id in
      (
        task_id,
        call_soon_threadsafe (creates task_id) (record m {
          next_task_id = task_id + 1;
          futures = update m.futures task_id Future.pending;
        }),
      )

  -- `except CancelledError` in `spawn`: raises again, for `none`, if the future is done.
  unfoldable pub manager_interrupt : ℕ → Manager A → Option (Manager A)
  manager_interrupt task_id m =
      if is_done (m.futures task_id)
      then none
      else some (call_soon_threadsafe (cancels_call task_id) m)

  unfoldable pub manager_cancel : ℕ → Manager A → Manager A
  unfolding guaranteed_cancel
  manager_cancel task_id m = elim (m.tasks task_id) [
    | none ↦ m
    | some task ↦ record m { tasks = update m.tasks task_id (some (guaranteed_cancel task).1) }
  ]

  unfoldable pub manager_create : ℕ → Manager A → Manager A
  unfolding new_guaranteed
  manager_create task_id m = record m { tasks = update m.tasks task_id (some new_guaranteed) }

  unfoldable pub run_callback : Callback → Manager A → Manager A
  unfolding manager_create manager_cancel
  run_callback (creates task_id) m = manager_create task_id m
  run_callback (cancels_call task_id) m = manager_cancel task_id m

  abbrev pub transfer_threadsafe : ℕ → FutureState A → Manager A → Manager A
  transfer_threadsafe task_id s m = record m {
    transfers = update m.transfers task_id (m.transfers task_id ++ s ∷ []);
  }

  -- `create_task` once `inner_task` has ended with the outcome `o`, the `finally` clause included.
  unfoldable pub create_task_end : A → ℕ → Outcome A → Manager A → Manager A
  unfolding absorb_awaitable
  create_task_end py_none task_id o m =
      let m' = transfer_threadsafe task_id (absorb_awaitable py_none o) m in
      record m' { tasks = update m'.tasks task_id none }

  -- The loop of `spawn`: its result, and how many times it has scheduled `_cancel`. The future is
  -- done after a cancellation if the cancellation is its own.
  unfoldable pub spawn_loop : ℕ → Task A → List (Event A) → Run A × ℕ
  unfolding await_shielded
  spawn_loop zero t es = (spinning, 0)
  spawn_loop (suc fuel) t es = elim (await_shielded t es) [
    | asleep t' ↦ (suspended t', 0)
    | resumed o t' es' ↦
        let rest = spawn_loop fuel t' es' in
        elim o [
          | returned a ↦ (completed (returned a) t', 0)
          | raised e ↦
              if is_cancelled_error e && not (task_done t')
              then (rest.0, rest.1 + 1)
              else (completed (raised e) t', 0)
        ]
  ]
