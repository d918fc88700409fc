-- ===== src/ThreadLoop/Runs.antt =====
-- Runs of src/aiodrive/modules/thread_loop.py and thread_sync.py whose launching task is cancelled
-- any number of times in each of its three waits.
use aiodrive.Prelude.{
  ltb, if◌then◌else◌, Bool-cases, replicate, ℕ, zero, suc, ◌+◌, ◌<◌, ◌≡◌, refl, ap, ◌∙◌, inl, inr,
  Bool, true, false, ◌||◌, none, some, List, [], ◌∷◌, ◌++◌, arith,
}
use aiodrive.Asyncio.{cancelled_error, is_cancelled_error, Outcome, returned, raised}
use aiodrive.Cancel.{unmatched}
use aiodrive.Shield.{cancels, shield_wait_forever}
use aiodrive.Shield.Waiting.{after_cancels, pending_task, unless, shield_wait_forever-after_cancels}
use aiodrive.SharedState.Launch.{
  Stage, join, preparing, running, has_started, finish, thread_main, finish_sync,
}
use aiodrive.SharedState.Stages.{finish-thread_main, finish_sync-thread_main}
use aiodrive.ThreadLoop.{
  Moment, interruption, thread_end, stage_is, ready, wait_stage, left, has_joined, start_loop,
  launch_in_thread_loop, finish_loop, future_events, has_ended, done, join_thread, await_finish,
  run_in_thread_loop, await_finish_sync, launch_in_thread_loop_sync, run_in_thread_loop_sync,
  after_body, run_in_thread_loop_contextualized_sync, run_async,
}

wait_stage_holds :
    (fn : Stage → Bool) (s : Stage) (ms : List Moment)
    → fn s ≡ true
    → wait_stage fn s ms ≡ ready s ms
unfolding wait_stage
wait_stage_holds fn s [] h = rw h refl
wait_stage_holds fn s (interruption ∷ ms) h = rw h refl
wait_stage_holds fn s (thread_end ∷ ms) h = rw h refl
wait_stage_holds fn s (stage_is s' ∷ ms) h = rw h refl

abbrev pub interruptions : ℕ → List Moment → List Moment
interruptions k ms = replicate k interruption ++ ms

start_loop-interruptions :
    (fuel a : ℕ) (c : Bool) (ms : List Moment)
    → a < fuel
    → start_loop fuel c preparing (interruptions a (stage_is running ∷ ms))
      ≡ left (c || ltb 0 a) (if c || ltb 0 a then 1 else 0) running ms
unfolding start_loop wait_stage
start_loop-interruptions zero a c ms h = absurd (omega arith)
start_loop-interruptions (suc fuel) zero c ms h =
    rw (wait_stage_holds has_started running ms refl) (ground arith)
start_loop-interruptions (suc fuel) (suc a) c ms h =
    start_loop-interruptions fuel a true ms (omega arith) ∙ ground arith

finish_loop-interruptions :
    (fuel b n : ℕ) (c : Bool) (ms : List Moment)
    → b < fuel
    → finish_loop fuel c n running (interruptions b (stage_is join ∷ ms))
      ≡ left (c || ltb 0 b) (n + b) join ms
unfolding finish_loop wait_stage
finish_loop-interruptions zero b n c ms h = absurd (omega arith)
finish_loop-interruptions (suc fuel) zero n c ms h =
    rw (wait_stage_holds has_joined join ms refl) (ground arith)
finish_loop-interruptions (suc fuel) (suc b) n c ms h =
    finish_loop-interruptions fuel b (n + 1) true ms (omega arith) ∙ ground arith

future_events-interruptions :
    (k : ℕ) (ms : List Moment)
    → future_events (interruptions k (thread_end ∷ ms))
      ≡ after_cancels k (returned tt) (future_events ms)
future_events-interruptions zero ms = refl
future_events-interruptions (suc k) ms = ap (λ es. cancels ∷ es) (future_events-interruptions k ms)

has_ended-interruptions :
    (k : ℕ) (ms : List Moment) → has_ended (interruptions k (thread_end ∷ ms)) ≡ true
has_ended-interruptions zero ms = refl
has_ended-interruptions (suc k) ms = has_ended-interruptions k ms

-- The moments of a run: `a` interruptions before the thread runs, `b` before its end is announced,
-- and `c` before it has ended.
abbrev pub moments : ℕ → ℕ → ℕ → List Moment → List Moment
moments a b c ms =
    interruptions a
      (stage_is running ∷ interruptions b (stage_is join ∷ interruptions c (thread_end ∷ ms)))

module _ {A : Type 0} (py_none : A) where
  join_thread-interruptions :
      (fuel c n : ℕ) (f : Bool) (o : Outcome A) (ms : List Moment)
      → c < fuel
      → join_thread fuel true (thread_main py_none o) f n (interruptions c (thread_end ∷ ms))
        ≡ done (if ltb 0 c then raised cancelled_error else finish f (thread_main py_none o)) n
  unfolding join_thread
  join_thread-interruptions fuel c n f o ms h =
      let e =
        ap (shield_wait_forever fuel (pending_task 0)) (future_events-interruptions c ms)
        ∙ shield_wait_forever-after_cancels fuel c 0 (returned tt) (future_events ms) h (λ e. cc) in
      rw e (ground arith)

  -- `run_in_thread_loop`, whose task is cancelled `a` times before the thread runs, `b` times
  -- before the thread announces its end and `c` times before it has ended: with enough fuel it comes
  -- to the outcome `o` of its target, or to a `CancelledError`, if `c` is not zero, or if another
  -- number is not zero and the target has returned. It has requested once for the first
  -- cancellations, and once for each of the second, that the target be cancelled.
  pub run_in_thread_loop-moments :
      (fuel a b c : ℕ) (o : Outcome A) (ms : List Moment)
      → a < fuel
      → b < fuel
      → c < fuel
      → run_in_thread_loop fuel (thread_main py_none o) (moments a b c ms)
        ≡ done
            (if ltb 0 c then raised cancelled_error else unless (ltb 0 a || ltb 0 b) o)
            ((if ltb 0 a then 1 else 0) + b)
  unfolding run_in_thread_loop launch_in_thread_loop await_finish
  run_in_thread_loop-moments fuel a b c o ms ha hb hc =
      rw
        (
          start_loop-interruptions fuel a false
              (interruptions b (stage_is join ∷ interruptions c (thread_end ∷ ms))) ha,
          finish_loop-interruptions fuel b (if ltb 0 a then 1 else 0) (ltb 0 a)
              (interruptions c (thread_end ∷ ms)) hb,
          join_thread-interruptions fuel c ((if ltb 0 a then 1 else 0) + b) (ltb 0 a || ltb 0 b) o
              ms hc,
          finish-thread_main py_none (ltb 0 a || ltb 0 b) o,
        )
        (ground arith)

  -- What is left of an outcome without its cancellations: `None` where nothing is.
  abbrev pub uncancelled : Outcome A → Outcome A
  uncancelled (returned a) = returned a
  uncancelled (raised e) = elim (unmatched is_cancelled_error e) [
    | none ↦ returned py_none
    | some e' ↦ raised e'
  ]

  abbrev pub after_target : Outcome A → Outcome A → Outcome A
  after_target body (returned a) = body
  after_target body (raised e) = raised e

  after_body-done :
      (body o : Outcome A) → after_body py_none body (done o 1) ≡ done (after_target body o) 1
  after_body-done body (returned a) = refl
  after_body-done body (raised e) = refl

  finish_sync-uncancelled :
      (has_loop : Bool) (o : Outcome A)
      → finish_sync py_none has_loop (thread_main py_none o) ≡ uncancelled o
  finish_sync-uncancelled has_loop (returned a) =
      finish_sync-thread_main py_none has_loop (returned a)
  finish_sync-uncancelled has_loop (raised e) = finish_sync-thread_main py_none has_loop (raised e)

  -- The context manager of a caller without an event loop: when the thread has run and ended, the
  -- result is the block's own, unless the target has raised something other than a cancellation,
  -- which replaces it; the target has been asked to stop once.
  pub run_in_thread_loop_contextualized_sync-thread_main :
      (has_loop : Bool) (o body : Outcome A) (ms : List Moment)
      → run_in_thread_loop_contextualized_sync py_none has_loop
          (thread_main py_none o)
          body
          (moments 0 0 0 ms)
        ≡ done (after_target body (uncancelled o)) 1
  unfolding run_in_thread_loop_contextualized_sync launch_in_thread_loop_sync await_finish_sync
      wait_stage
  run_in_thread_loop_contextualized_sync-thread_main has_loop o body ms =
      rw (finish_sync-uncancelled has_loop o) (after_body-done body (uncancelled o))

  -- `run_async` comes to the outcome of its awaitable if the thread has no event loop; if it has
  -- one, the cancellations are taken out of what the awaitable raised. Nothing is asked to stop.
  pub run_async-thread_main :
      (fuel : ℕ) (has_loop : Bool) (o : Outcome A) (ms : List Moment)
      → 0 < fuel
      → run_async py_none fuel has_loop (thread_main py_none o) (moments 0 0 0 ms)
        ≡ done (if has_loop then uncancelled o else o) 0
  unfolding run_async run_in_thread_loop_sync launch_in_thread_loop_sync await_finish_sync
      wait_stage
  run_async-thread_main fuel has_loop o ms h = elim (Bool-cases has_loop) [
    | inl y ↦ rw y (rw (finish_sync-uncancelled true o) refl)
    | inr n ↦
        rw n (run_in_thread_loop-moments fuel 0 0 0 o ms h h h ∙ ap (λ x. done x 0) (ground arith))
  ]
