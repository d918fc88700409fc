-- ===== src/ThreadLock/Waiters.antt =====
-- Threads and tasks that wait for one `ThreadsafeCondition` of
-- src/aiodrive/modules/thread_safe_lock.py: the steps, and what each waiter's state is.
use aiodrive.Prelude.{
  ltb, ◌==◌, if◌then◌else◌, Bool-cases, update, ℕ, ◌+◌, ◌≤◌, ◌<◌, ◌≡◌, refl, inl, inr, Bool, true,
  false, not, ◌&&◌, ◌||◌, Option, none, some, List, [], ◌∷◌, ◌++◌, arith,
}
use aiodrive.Asyncio.{Exn}
use aiodrive.ThreadLock.Condition.{
  Waiter, thread_waiter, task_waiter, ThreadsafeCondition, new_condition, wake_all, notify,
  wait_thread, wait_future, cancel_waiter,
}

abbrev pub threads : ℕ → List Waiter → ℕ
threads k [] = 0
threads k (thread_waiter j ∷ ws) = (if j == k then 1 else 0) + threads k ws
threads k (task_waiter j ∷ ws) = threads k ws

abbrev pub tasks : ℕ → List Waiter → ℕ
tasks k [] = 0
tasks k (thread_waiter j ∷ ws) = tasks k ws
tasks k (task_waiter j ∷ ws) = (if j == k then 1 else 0) + tasks k ws

pub threads-append :
    (k : ℕ) (ws vs : List Waiter) → threads k (ws ++ vs) ≡ threads k ws + threads k vs
threads-append k [] vs = omega arith
threads-append k (thread_waiter j ∷ ws) vs = omega (arith, threads-append k ws vs)
threads-append k (task_waiter j ∷ ws) vs = threads-append k ws vs

pub tasks-append : (k : ℕ) (ws vs : List Waiter) → tasks k (ws ++ vs) ≡ tasks k ws + tasks k vs
tasks-append k [] vs = omega arith
tasks-append k (thread_waiter j ∷ ws) vs = tasks-append k ws vs
tasks-append k (task_waiter j ∷ ws) vs = omega (arith, tasks-append k ws vs)

-- What waking a list of waiters, each of which is there once and holds its lock, comes to.
pub wake_all_lem :
    (ws : List Waiter) (c : ThreadsafeCondition) (k : ℕ)
    → ((j : ℕ) → threads j ws ≤ 1)
    → ((j : ℕ) → 0 < threads j ws → c.held j ≡ true)
    → ((wake_all ws c).1 ≡ none)
      × ((wake_all ws c).0.held k ≡ (if ltb 0 (threads k ws) then false else c.held k))
      × ((wake_all ws c).0.signalled k
          ≡ (c.signalled k || ltb 0 (tasks k ws) && not (c.cancelled k || c.closed k)))
      × ((wake_all ws c).0.cancelled k ≡ c.cancelled k)
      × ((wake_all ws c).0.closed k ≡ c.closed k)
wake_all_lem [] c k once h = (refl, refl, ground arith, refl, refl)
wake_all_lem (thread_waiter j ∷ ws) c k once h =
    let held : c.held j ≡ true = h j (ground arith) in
    let c' : ThreadsafeCondition = record c { held = update c.held j false } in
    let rest =
      wake_all_lem ws c' k (λ i. ground (arith, once i)) (λ i p. ground (arith, once i, h i)) in
    rw held (rest.0, ground (arith, rest.1, once k), rest.2, rest.3, rest.4)
wake_all_lem (task_waiter j ∷ ws) c k once h = elim (Bool-cases (c.cancelled j || c.closed j)) [
  | inl y ↦
      let rest = wake_all_lem ws c k once h in
      rw y (rest.0, rest.1, ground (arith, rest.2), rest.3, rest.4)
  | inr n ↦
      let c' : ThreadsafeCondition = record c { signalled = update c.signalled j true } in
      let rest = wake_all_lem ws c' k once h in
      rw n (rest.0, rest.1, ground (arith, rest.2), rest.3, rest.4)
]

-- `known` waiters have registered, those below it. While `notify` runs, `copied` is its list of
-- waiters, and those below `seen` had registered when it was made. `lost` says of a waiter that it
-- was cleared from the set without being in that list, `due` that a `notify` that has ended found
-- it in the set, and `error` is what a call of `notify` has raised.
pub record Waiting : Type 0 where
  pub condition : ThreadsafeCondition
  pub known : ℕ
  pub is_thread : ℕ → Bool
  pub copied : Option (List Waiter)
  pub seen : ℕ
  pub due : ℕ → Bool
  pub lost : ℕ → Bool
  pub error : Option Exn

abbrev pub joins : Bool → ThreadsafeCondition → Waiting → Waiting
joins is_thread c s = record s {
  condition = c;
  known = s.known + 1;
  is_thread = update s.is_thread s.known is_thread;
}

-- The end of a call of `notify`.
abbrev pub ended : List Waiter → Waiting → Waiting
ended ws s = record s {
  condition = (notify ws s.condition).0;
  copied = none;
  due = λ k. s.due k || ltb k s.seen && not (s.lost k);
  lost = λ k. s.lost k || ltb k s.known && not (s.due k || ltb k s.seen && not (s.lost k));
  error = elim s.error [ none ↦ (notify ws s.condition).1 | some e ↦ some e ];
}

-- A waiter registers, or gives up; `notify`, whose callers hold the lock and so take turns, copies
-- the set, and then ends. The order of a waiter that gives up and the rounds of the loop of
-- `notify` makes no difference to who goes on.
pub data Step (s : Waiting) : Waiting → Type 0 where
  waits_sync : Step s (joins true (wait_thread s.known s.condition) s)
  waits_async : Step s (joins false (wait_future s.known s.condition) s)
  gives_up : (k : ℕ) → Step s (record s { condition = cancel_waiter k s.condition })
  copies : s.copied ≡ none → Step s (record s { copied = some s.condition.waiters; seen = s.known })
  notifies : (ws : List Waiter) → s.copied ≡ some ws → Step s (ended ws s)

pub data Reach (closed : ℕ → Bool) : Waiting → Type 0 where
  here : Reach closed (record {
    condition = new_condition closed;
    known = 0;
    is_thread = λ _. false;
    copied = none;
    seen = 0;
    due = λ _. false;
    lost = λ _. false;
    error = none;
  })
  next : {s s' : Waiting} → Reach closed s → Step s s' → Reach closed s'

-- Whether a waiter has registered, and has not been notified or lost.
abbrev pub is_kept : Waiting → ℕ → Bool
is_kept s k = ltb k s.known && not (s.due k) && not (s.lost k)

pub record Inv (s : Waiting) : Type 0 where
  pub of_threads :
      (k : ℕ) → threads k s.condition.waiters ≡ (if is_kept s k && s.is_thread k then 1 else 0)
  pub of_tasks :
      (k : ℕ) → tasks k s.condition.waiters ≡ (if is_kept s k && not (s.is_thread k) then 1 else 0)
  pub holds : (k : ℕ) → s.condition.held k ≡ (ltb k s.known && not (s.due k) && s.is_thread k)
  pub early : (k : ℕ) → s.condition.signalled k ≡ true → s.due k ≡ true
  pub told :
      (k : ℕ)
      → s.due k ≡ true
      → s.is_thread k ≡ false
      → s.condition.signalled k || s.condition.cancelled k || s.condition.closed k ≡ true
  pub past : (k : ℕ) → s.due k ≡ true → k < s.known
  pub gone : (k : ℕ) → s.lost k ≡ true → (s.due k ≡ false) × (k < s.known)
  pub saw : s.seen ≤ s.known
  pub taken :
      (ws : List Waiter)
      → s.copied ≡ some ws
      → (k : ℕ)
      → (threads k ws ≡ (if ltb k s.seen && is_kept s k && s.is_thread k then 1 else 0))
        × (tasks k ws ≡ (if ltb k s.seen && is_kept s k && not (s.is_thread k) then 1 else 0))
  pub silent : s.error ≡ none
