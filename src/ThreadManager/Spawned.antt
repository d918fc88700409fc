-- ===== src/ThreadManager/Spawned.antt =====
-- The wait of `ThreadManager.spawn` in src/aiodrive/modules/thread_manager.py for its future.
use aiodrive.Prelude.{ℕ, zero, suc, ◌<◌, ◌≡◌, ap, List, ◌∷◌, arith}
use aiodrive.Asyncio.{Outcome, complete_task}
use aiodrive.Shield.{Event, ends, completed, await_shielded}
use aiodrive.Shield.Waiting.{after_cancels, pending_task, ended_task}
use aiodrive.ThreadManager.{spawn_loop}

module _ {A : Type 0} where
  spawn_loop_ended :
      (fuel r : ℕ) (o : Outcome A) (es : List (Event A))
      → spawn_loop (suc fuel) (pending_task r) (ends o ∷ es) ≡ (completed o (ended_task r o), 0)
  unfolding spawn_loop await_shielded complete_task
  spawn_loop_ended fuel r o es = ground arith

  -- However often the caller of `spawn` is cancelled before the call ends, `spawn` schedules that
  -- many requests to cancel the task, and completes with the outcome of the call itself; a round of
  -- the loop for each cancellation and one more are enough.
  pub spawn_loop-after_cancels :
      (fuel k r : ℕ) (o : Outcome A) (es : List (Event A))
      → k < fuel
      → spawn_loop fuel (pending_task r) (after_cancels k o es) ≡ (completed o (ended_task r o), k)
  unfolding spawn_loop await_shielded
  spawn_loop-after_cancels zero k r o es h = absurd (omega arith)
  spawn_loop-after_cancels (suc fuel) zero r o es h = spawn_loop_ended fuel r o es
  spawn_loop-after_cancels (suc fuel) (suc k) r o es h =
      rw (spawn_loop-after_cancels fuel k r o es (omega arith))
        (ap (λ n. (completed o (ended_task r o), n)) (omega arith))
