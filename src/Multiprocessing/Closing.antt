-- ===== src/Multiprocessing/Closing.antt =====
-- The wait of `spawn` for its future, and the exit of `MultiprocessingProcess`, in
-- src/aiodrive/modules/multiprocessing.py.
mod Tests
use aiodrive.Prelude.{
  ltb, ◌==◌, if◌then◌else◌, ℕ, zero, suc, ◌+◌, ◌<◌, ◌≡◌, ap, ◌∙◌, Bool, true, false, not, ◌&&◌,
  ◌||◌, List, ◌∷◌, arith,
}
use aiodrive.Asyncio.{
  Exn, cancelled_error, runtime_error, connection_error, is_cancelled_error, Outcome, returned,
  raised, Task, task_done, complete_task,
}
use aiodrive.Shield.{
  Event, ends, asleep, resumed, Run, suspended, completed, spinning, await_shielded, conclude,
}
use aiodrive.Shield.Waiting.{after_cancels, pending_task, ended_task, unless}
use aiodrive.Scope.{Scoped, use_scope, contextualize}
use aiodrive.Scope.Background.{contextualize-obedient}

module _ {A : Type 0} where
  -- The loop of `spawn`: its result, and how many `CancelTaskMessage`s it sends. Sending one does
  -- not suspend here.
  unfoldable pub spawn_wait : ℕ → Bool → Task A → List (Event A) → Run A × ℕ
  unfolding await_shielded
  spawn_wait zero flag t es = (spinning, 0)
  spawn_wait (suc fuel) flag t es = elim (await_shielded t es) [
    | asleep t' ↦ (suspended t', 0)
    | resumed o t' es' ↦
        let rest = spawn_wait fuel true t' es' in
        elim o [
          | returned a ↦ (completed (conclude flag a) t', 0)
          | raised e ↦
              if is_cancelled_error e && not (task_done t')
              then (rest.0, rest.1 + 1)
              else (completed (raised e) t', 0)
        ]
  ]

  spawn_wait_ended :
      (fuel r : ℕ) (flag : Bool) (o : Outcome A) (es : List (Event A))
      → spawn_wait (suc fuel) flag (pending_task r) (ends o ∷ es)
        ≡ (completed (unless flag o) (ended_task r o), 0)
  unfolding spawn_wait await_shielded complete_task
  spawn_wait_ended fuel r flag o es = ground arith

  -- A call that is cancelled `k` times before its task ends sends that many messages, and completes,
  -- with a round of fuel for each and one more, as the task does: but for a `CancelledError` in
  -- place of a value, if there was a cancellation.
  pub spawn_wait-after_cancels :
      (fuel k r : ℕ) (flag : Bool) (o : Outcome A) (es : List (Event A))
      → k < fuel
      → spawn_wait fuel flag (pending_task r) (after_cancels k o es)
        ≡ (completed (unless (flag || ltb 0 k) o) (ended_task r o), k)
  unfolding spawn_wait await_shielded
  spawn_wait-after_cancels zero k r flag o es h = absurd (omega arith)
  spawn_wait-after_cancels (suc fuel) zero r flag o es h =
      spawn_wait_ended fuel r flag o es
      ∙ ap (λ b. (completed (unless b o) (ended_task r o), 0)) (ground arith)
  spawn_wait-after_cancels (suc fuel) (suc k) r flag o es h =
      let p : true ≡ (flag || ltb 0 (suc k)) = ground arith in
      let q : k + 1 ≡ suc k = omega arith in
      rw (spawn_wait-after_cancels fuel k r true o es (omega arith))
        (λ i. (completed (unless (p i) o) (ended_task r o), q i))

-- `with suppress(IOError)`.
abbrev pub is_io_error : Exn → Bool
is_io_error connection_error = true
is_io_error _ = false

-- `close_callback`: `sent` and `waited` are what sending `ShutdownMessage` and waiting for the
-- process come to.
unfoldable pub close_callback : Outcome (Unit {0}) → Outcome (Unit {0}) → ℕ → Outcome (Unit {0})
close_callback sent waited exitcode =
    let joined : Outcome (Unit {0}) = if exitcode == 0 then returned tt else raised runtime_error in
    let left : Outcome (Unit {0}) = elim waited [ returned u ↦ joined | raised e ↦ raised e ] in
    elim sent [ returned u ↦ left | raised e ↦ if is_io_error e then left else raised e ]

-- `AsyncExitStack.__aexit__`: the context of `_loop`, which was entered last, is left first, and an
-- error of the callback replaces its outcome.
abbrev pub then_close : Outcome (Unit {0}) → Run (Unit {0}) → Run (Unit {0})
then_close closed (suspended t) = suspended t
then_close closed spinning = spinning
then_close closed (completed o t) =
    completed (elim closed [ returned u ↦ o | raised e ↦ raised e ]) t

unfoldable pub exit_process :
    Scoped
    → Outcome (Unit {0})
    → Task (Unit {0})
    → List (Event (Unit {0}))
    → Outcome (Unit {0})
    → Run (Unit {0})
unfolding contextualize
exit_process s body t es closed = then_close closed (contextualize s body t es)

-- If `_loop` obeys its cancellation and the process has been waited for: the outcome is that of the
-- scope around the block if the process has ended with the code zero, and otherwise a
-- `RuntimeError`, whether or not the message could be sent.
pub exit_process-close_callback :
    (s : Scoped) (body : Outcome (Unit {0})) (sending : Bool) (exitcode : ℕ)
    (es : List (Event (Unit {0})))
    → exit_process s body (pending_task 0) (after_cancels 0 (raised cancelled_error) es) (
        close_callback
          (if sending then returned tt else raised connection_error)
          (returned tt)
          exitcode)
      ≡ completed
          (if exitcode == 0 then (use_scope s body).0 else raised runtime_error)
          (ended_task 0 (raised cancelled_error))
unfolding exit_process close_callback
exit_process-close_callback s body sending exitcode es =
    ap
      (then_close (
        close_callback (if sending then returned tt else raised connection_error) (returned tt)
          exitcode))
      (contextualize-obedient s body es)
    ∙ ground arith
