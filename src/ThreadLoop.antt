-- ===== src/ThreadLoop.antt =====
-- src/aiodrive/modules/thread_loop.py and thread_sync.py: the launching side, which is cancelled
-- while it waits for the stages of the thread. SharedState models the waits for a stage as calls of
-- `ThreadsafeState`; here one ends at the first moment at which the stage is as wanted.

pub mod Runs
mod Tests
use aiodrive.Prelude.{if◌then◌else◌, ℕ, zero, suc, ◌+◌, Bool, true, false, List, [], ◌∷◌}
use aiodrive.Asyncio.{Outcome, returned, raised, Future, pending, result}
use aiodrive.FutureState.{FutureState}
use aiodrive.Shield.{Event, cancels, ends, Run, suspended, completed, spinning, shield_wait_forever}
use aiodrive.SharedState.Launch.{
  Stage, join, preparing, eq_stage, has_started, is_running, finish, finish_sync,
}

-- What happens to a launching task: it is cancelled, the thread sets a stage, or the thread ends.
pub data Moment : Type 0 where
  interruption thread_end : Moment
  stage_is : Stage → Moment

-- A wait for a stage that goes on, ends, or raises `CancelledError`.
pub data Waited : Type 0 where
  goes_on : Waited
  ready interrupted : Stage → List Moment → Waited

-- `await stage.wait_until(fn)`.
unfoldable pub wait_stage : (Stage → Bool) → Stage → List Moment → Waited
wait_stage fn s [] = if fn s then ready s [] else goes_on
wait_stage fn s (interruption ∷ ms) = if fn s then ready s (interruption ∷ ms) else interrupted s ms
wait_stage fn s (thread_end ∷ ms) =
    let rest = wait_stage fn s ms in if fn s then ready s (thread_end ∷ ms) else rest
wait_stage fn s (stage_is s' ∷ ms) =
    let rest = wait_stage fn s' ms in if fn s then ready s (stage_is s' ∷ ms) else rest

-- A loop's result: out of fuel, at its wait, or left with the flag `cancelled`, the number of
-- requests to cancel that are scheduled, the stage, and the moments to come.
pub data Left : Type 0 where
  out_of_fuel still_waits : Left
  left : Bool → ℕ → Stage → List Moment → Left

abbrev pub has_joined : Stage → Bool
has_joined s = eq_stage s join

-- The first `while True` loop of `launch_in_thread_loop`, on fuel.
unfoldable pub start_loop : ℕ → Bool → Stage → List Moment → Left
unfolding wait_stage
start_loop zero was_cancelled s ms = out_of_fuel
start_loop (suc fuel) was_cancelled s ms = elim (wait_stage has_started s ms) [
  | goes_on ↦ still_waits
  | ready s' ms' ↦ left was_cancelled (if was_cancelled then 1 else 0) s' ms'
  | interrupted s' ms' ↦ start_loop fuel true s' ms'
]

-- `launch_in_thread_loop`, which returns `finish()`.
unfoldable pub launch_in_thread_loop : ℕ → List Moment → Left
unfolding start_loop
launch_in_thread_loop fuel ms = start_loop fuel false preparing ms

-- The loop of `finish`. `call_soon_threadsafe` raises nothing that goes on.
unfoldable pub finish_loop : ℕ → Bool → ℕ → Stage → List Moment → Left
unfolding wait_stage
finish_loop zero was_cancelled n s ms = out_of_fuel
finish_loop (suc fuel) was_cancelled n s ms = elim (wait_stage has_joined s ms) [
  | goes_on ↦ still_waits
  | ready s' ms' ↦ left was_cancelled n s' ms'
  | interrupted s' ms' ↦ finish_loop fuel true (n + 1) s' ms'
]

-- What the future of the executor's thread sees.
abbrev pub future_events : List Moment → List (Event (Unit {0}))
future_events [] = []
future_events (interruption ∷ ms) = cancels ∷ future_events ms
future_events (thread_end ∷ ms) = ends (returned tt) ∷ future_events ms
future_events (stage_is s ∷ ms) = future_events ms

abbrev pub has_ended : List Moment → Bool
has_ended [] = false
has_ended (thread_end ∷ ms) = true
has_ended (interruption ∷ ms) = has_ended ms
has_ended (stage_is s ∷ ms) = has_ended ms

-- What awaiting the launched call comes to, with the number of requests to cancel its task.
pub data Launched (A : Type 0) : Type 0 where
  stuck waiting : Launched A
  done : Outcome A → ℕ → Launched A

module _ {A : Type 0} where
  -- `await shield_wait_forever(thread_future)`, or `thread.join()`, and the rest of `finish`.
  unfoldable pub join_thread : ℕ → Bool → FutureState A → Bool → ℕ → List Moment → Launched A
  unfolding finish shield_wait_forever
  join_thread fuel use_executor result was_cancelled n ms =
      let o = finish was_cancelled result in
      if use_executor
      then elim (shield_wait_forever fuel (record { future = Future.pending; requests = 0 })
          (future_events ms)) [
            | suspended t ↦ waiting
            | completed r t ↦ elim r [ returned u ↦ done o n | raised e ↦ done (raised e) n ]
            | spinning ↦ stuck
          ]
      else if has_ended ms
      then done o n
      else waiting

  abbrev pub after_loop : (Bool → ℕ → Stage → List Moment → Launched A) → Left → Launched A
  after_loop k out_of_fuel = stuck
  after_loop k still_waits = waiting
  after_loop k (left c n s ms) = k c n s ms

  -- `finish`, from the flag and the requests that its launch has left.
  unfoldable pub await_finish :
      ℕ → Bool → FutureState A → Bool → ℕ → Stage → List Moment → Launched A
  unfolding finish_loop join_thread
  await_finish fuel use_executor result was_cancelled n s ms =
      after_loop (λ c n' s' ms'. join_thread fuel use_executor result c n' ms')
        (finish_loop fuel was_cancelled n s ms)

  unfoldable pub run_in_thread_loop : ℕ → FutureState A → List Moment → Launched A
  unfolding launch_in_thread_loop await_finish
  run_in_thread_loop fuel result ms =
      after_loop (await_finish fuel true result) (launch_in_thread_loop fuel ms)

  -- `to_thread`: the events are those of the task that runs the function in a thread.
  unfoldable pub to_thread : ℕ → List (Event A) → Run A
  unfolding shield_wait_forever
  to_thread fuel es = shield_wait_forever fuel (record { future = Future.pending; requests = 0 }) es

module _ {A : Type 0} (py_none : A) where
  -- `finish` of `launch_in_thread_loop_sync`, with the number of requests that it schedules.
  unfoldable pub await_finish_sync : Bool → Bool → FutureState A → Stage → List Moment → Launched A
  unfolding wait_stage finish_sync
  await_finish_sync has_loop cancels_task result s ms = elim (wait_stage has_joined s ms) [
    | goes_on ↦ waiting
    | interrupted s' ms' ↦ waiting
    | ready s' ms' ↦
        if has_ended ms'
        then done (finish_sync py_none has_loop result) (if cancels_task then 1 else 0)
        else waiting
  ]

  -- `launch_in_thread_loop_sync`, and what is done with the function that it returns.
  unfoldable pub launch_in_thread_loop_sync :
      (Stage → List Moment → Launched A) → List Moment → Launched A
  unfolding wait_stage
  launch_in_thread_loop_sync client ms = elim (wait_stage is_running preparing ms) [
    | goes_on ↦ waiting
    | interrupted s ms' ↦ waiting
    | ready s ms' ↦ client s ms'
  ]

  unfoldable pub run_in_thread_loop_sync : Bool → FutureState A → List Moment → Launched A
  unfolding launch_in_thread_loop_sync await_finish_sync
  run_in_thread_loop_sync has_loop result ms =
      launch_in_thread_loop_sync (await_finish_sync has_loop false result) ms

  -- The `finally` clause: what `finish` raises takes the place of the block's outcome.
  abbrev pub after_body : Outcome A → Launched A → Launched A
  after_body body stuck = stuck
  after_body body waiting = waiting
  after_body body (done (returned a) n) = done body n
  after_body body (done (raised e) n) = done (raised e) n

  -- As a context manager whose block ends as `body` says, in the stage `s`.
  unfoldable pub run_in_thread_loop_contextualized_sync :
      Bool → FutureState A → Outcome A → List Moment → Launched A
  unfolding launch_in_thread_loop_sync await_finish_sync
  run_in_thread_loop_contextualized_sync has_loop result body ms =
      launch_in_thread_loop_sync
        (λ s ms'. after_body body (await_finish_sync has_loop true result s ms')) ms

  -- `run_async`: in a new event loop nothing cancels the task that awaits.
  unfoldable pub run_async : ℕ → Bool → FutureState A → List Moment → Launched A
  unfolding run_in_thread_loop_sync run_in_thread_loop
  run_async fuel has_loop result ms =
      if has_loop
      then run_in_thread_loop_sync has_loop result ms
      else run_in_thread_loop fuel result ms
