-- ===== src/DaemonHandle/Uses.antt =====
-- A `PendingDaemonHandle` of src/aiodrive/modules/handle.py as a context manager, on a generator
-- that may not keep to its protocol, and the methods of `DaemonHandle`.
-- How a coroutine that waits ends when it is cancelled, within one step.
use aiodrive.Prelude.{
  if◌then◌else◌, ℕ, ◌≡◌, refl, ap, ◌∙◌, Bool, ◌||◌, none, some, List, [], ◌∷◌, arith,
}
use aiodrive.Asyncio.{
  Exn, cancelled_error, assertion_error, runtime_error, is_cancelled_error, is_stop_async_iteration,
  Outcome, returned, raised, Task,
}
use aiodrive.Coroutine.{throws, Coroutine, finishes, yields, ensure_daemon}
use aiodrive.Cancel.CancelTask.{cancel_task-after_cancels}
use aiodrive.Shield.{Event, completed}
use aiodrive.Shield.Waiting.{after_cancels, pending_task, ended_task}
use aiodrive.Scope.{Scoped, enter_scope, use_scope, join, after_join, contextualize}
use aiodrive.DaemonHandle.{
  Generator, anext, first_call, stop_generator, second_call, PendingDaemonHandle,
  new_pending_handle, await_awaitable, enter_handle, exit_handle, new_daemon_handle, enter_daemon,
  exit_daemon,
}

abbrev pub when_cancelled : Coroutine (Unit {0}) (Unit {0}) → Outcome (Unit {0})
when_cancelled (finishes o) = o
when_cancelled (yields v resume) = elim (resume (throws cancelled_error)) [
  | finishes o ↦ o
  | yields v' resume' ↦ raised runtime_error
]

-- What the second step of a generator comes to.
abbrev pub left_over : {A : Type 0} → List (Outcome A) → Outcome (Unit {0}) → Exn
left_over [] closing = cancelled_error
left_over (returned a ∷ os) (returned u) = runtime_error
left_over (returned a ∷ os) (raised e) = e
left_over (raised e ∷ os) closing = if is_stop_async_iteration e then cancelled_error else e

ends-joined :
    (x : Exn) (scoped : Outcome (Unit {0}))
    → after_join scoped (
        if is_cancelled_error x
        then completed (returned tt) (ended_task 0 (raised x))
        else completed (raised x) (ended_task 1 (raised x)))
      ≡ completed
          (if is_cancelled_error x then scoped else join scoped (raised x))
          (ended_task (if is_cancelled_error x then 0 else 1) (raised x))
ends-joined x scoped = ground arith

contextualize-ends :
    (s : Scoped) (body : Outcome (Unit {0})) (x : Exn) (es : List (Event (Unit {0})))
    → contextualize s body (pending_task 0) (after_cancels 0 (raised x) es)
      ≡ completed
          (if is_cancelled_error x
            then (use_scope s body).0
            else join (use_scope s body).0 (raised x))
          (ended_task (if is_cancelled_error x then 0 else 1) (raised x))
unfolding contextualize
contextualize-ends s body x es =
    ap (after_join (use_scope s body).0) (cancel_task-after_cancels 0 0 (raised x) es)
    ∙ ends-joined x (use_scope s body).0

module _ {A : Type 0} where
  -- How the daemon of a handle ends when the context is left.
  abbrev pub daemon_end : PendingDaemonHandle A → Outcome (Unit {0})
  daemon_end h = elim h.contextualized [
    | none ↦ raised assertion_error
    | some c ↦ when_cancelled c.1
  ]

  stop_generator-left_over :
      (a : A) (os : List (Outcome A)) (closing : Outcome (Unit {0}))
      → stop_generator cancelled_error
          (anext (record { items = returned a ∷ os; closing = closing })).1
        ≡ raised (left_over os closing)
  unfolding stop_generator
  stop_generator-left_over a [] closing = refl
  stop_generator-left_over a (returned b ∷ os) (returned u) = refl
  stop_generator-left_over a (returned b ∷ os) (raised e) = refl
  stop_generator-left_over a (raised e ∷ os) closing = refl

  daemon-ends :
      (g : Generator A) (x : Exn)
      → stop_generator cancelled_error g ≡ raised x
      → when_cancelled (ensure_daemon (second_call g)) ≡ raised x
  unfolding second_call ensure_daemon
  daemon-ends g x e = rw (e, when_cancelled) refl

  -- A handle is entered with the first value of its generator. When the context is left, the daemon
  -- is cancelled and takes the second step, during which nobody else cancels the current task or the
  -- daemon: if the generator stops there, the outcome is that of
  -- the scope around the block, which depends on the requests `q` that the current task then has, so
  -- that a `CancelledError` of the block is kept unless there are none; if it yields again, a `RuntimeError`, or what closing it raises, is
  -- added to that outcome, as is anything else that the second step raises.
  pub enter_handle-exit_handle :
      (r q : ℕ) (a : A) (os : List (Outcome A)) (closing body : Outcome (Unit {0}))
      (es : List (Event (Unit {0})))
      → let (o, h) =
          enter_handle r
            (new_pending_handle (record { items = returned a ∷ os; closing = closing })) in
        let x = left_over os closing in
        let scoped = (use_scope (record (enter_scope r) { requests = q }) body).0 in
        (o ≡ returned a)
        × (exit_handle q body (pending_task 0) (after_cancels 0 (daemon_end h) es) h
            ≡ completed
                (if is_cancelled_error x then scoped else join scoped (raised x))
                (ended_task (if is_cancelled_error x then 0 else 1) (raised x)))
  unfolding enter_handle exit_handle new_pending_handle await_awaitable first_call
  enter_handle-exit_handle r q a os closing body es =
      let x = left_over os closing in
      let s : Scoped = record (enter_scope r) { requests = q } in
      let g : Generator A = (anext (record { items = returned a ∷ os; closing = closing })).1 in
      (
        refl,
        ap (λ o. contextualize s body (pending_task 0) (after_cancels 0 o es))
              (daemon-ends g x (stop_generator-left_over a os closing))
            ∙ contextualize-ends s body x es,
      )

  -- Entering fails, and leaves no daemon, on a generator that does not yield: with a `RuntimeError`
  -- if it stops, and with its exception if it raises one.
  pub enter_handle-refused :
      (r : ℕ) (e : Exn) (os : List (Outcome A)) (closing : Outcome (Unit {0})) (stops : Bool)
      → let h = enter_handle r (
          new_pending_handle
            (record { items = if stops then [] else raised e ∷ os; closing = closing })) in
        (h.0 ≡ raised (if stops || is_stop_async_iteration e then runtime_error else e))
        × (h.1.contextualized ≡ none)
  unfolding enter_handle new_pending_handle await_awaitable first_call
  enter_handle-refused r e os closing stops = (ground arith, ground arith)

-- A `DaemonHandle` can be awaited and closed, but it cannot be used as a context manager: entering
-- and leaving it both fail, since the context that they look for is made by neither.
pub enter_daemon-refused :
    (t : Task (Unit {0})) (is_task : Bool) (requests q : ℕ) (body : Outcome (Unit {0}))
    (es : List (Event (Unit {0})))
    → (enter_daemon requests (new_daemon_handle t is_task)
        ≡ (new_daemon_handle t is_task, some assertion_error))
      × (exit_daemon q body es (new_daemon_handle t is_task) ≡ completed (raised assertion_error) t)
unfolding enter_daemon exit_daemon new_daemon_handle
enter_daemon-refused t is_task requests q body es = (refl, refl)
