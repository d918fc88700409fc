-- ===== src/ThreadLock/Notified.antt =====
-- The waiters of a `ThreadsafeCondition` of src/aiodrive/modules/thread_safe_lock.py that go on.
mod Tests
use aiodrive.Prelude.{
  ltb, if◌then◌else◌, Bool-cases, ℕ, ◌<◌, ◌≡◌, refl, ap, subst, inl, inr, Bool, true, false, not,
  ◌&&◌, ◌||◌, none, some, List, [], ◌∷◌, arith,
}
use aiodrive.Asyncio.{Effect, and_then}
use aiodrive.ThreadLock.Condition.{
  Waiter, thread_waiter, task_waiter, ThreadsafeCondition, new_condition, wake_all, notify,
  wait_thread, wait_future, cancel_waiter, goes_on,
}
use aiodrive.ThreadLock.Waiters.{
  threads, tasks, threads-append, tasks-append, wake_all_lem, Waiting, joins, ended, waits_sync,
  waits_async, gives_up, copies, notifies, Reach, here, next, is_kept, Inv,
}

waits_sync-Inv : (s : Waiting) → Inv s → Inv (joins true (wait_thread s.known s.condition) s)
unfolding wait_thread
waits_sync-Inv s inv = record {
  of_threads = λ k. ground (
    arith,
    inv.of_threads k,
    inv.past k,
    inv.gone k,
    threads-append k s.condition.waiters (thread_waiter s.known ∷ []),
  );
  of_tasks = λ k. ground (
    arith,
    inv.of_tasks k,
    inv.past k,
    inv.gone k,
    tasks-append k s.condition.waiters (thread_waiter s.known ∷ []),
  );
  holds = λ k. ground (arith, inv.holds k, inv.past k);
  early = inv.early;
  told = λ k h t. ground (arith, inv.told k, inv.past k);
  past = λ k h. omega (arith, inv.past k h);
  gone = λ k h. ((inv.gone k h).0, omega (arith, (inv.gone k h).1));
  saw = omega (arith, inv.saw);
  taken = λ ws e k. ground (arith, inv.taken ws e k, inv.past k, inv.gone k, inv.saw);
  silent = inv.silent;
}

waits_async-Inv : (s : Waiting) → Inv s → Inv (joins false (wait_future s.known s.condition) s)
unfolding wait_future
waits_async-Inv s inv = record {
  of_threads = λ k. ground (
    arith,
    inv.of_threads k,
    inv.past k,
    inv.gone k,
    threads-append k s.condition.waiters (task_waiter s.known ∷ []),
  );
  of_tasks = λ k. ground (
    arith,
    inv.of_tasks k,
    inv.past k,
    inv.gone k,
    tasks-append k s.condition.waiters (task_waiter s.known ∷ []),
  );
  holds = λ k. ground (arith, inv.holds k, inv.past k);
  early = inv.early;
  told = λ k h t. ground (arith, inv.told k, inv.past k);
  past = λ k h. omega (arith, inv.past k h);
  gone = λ k h. ((inv.gone k h).0, omega (arith, (inv.gone k h).1));
  saw = omega (arith, inv.saw);
  taken = λ ws e k. ground (arith, inv.taken ws e k, inv.past k, inv.gone k, inv.saw);
  silent = inv.silent;
}

gives_up-Inv :
    (s : Waiting) (k : ℕ) → Inv s → Inv (record s { condition = cancel_waiter k s.condition })
gives_up-Inv s k inv = record {
  of_threads = inv.of_threads;
  of_tasks = inv.of_tasks;
  holds = inv.holds;
  early = inv.early;
  told = λ j h t. ground (arith, inv.told j);
  past = inv.past;
  gone = inv.gone;
  saw = inv.saw;
  taken = inv.taken;
  silent = inv.silent;
}

and_then-none :
    (p : Effect ThreadsafeCondition)
    → p.1 ≡ none
    → and_then p (λ c. (record c { waiters = [] }, none)) (λ c. c)
      ≡ (record p.0 { waiters = [] }, none)
and_then-none (c, none) e = refl
and_then-none (c, some x) e = absurd cc

notify_lem :
    (ws : List Waiter) (c : ThreadsafeCondition)
    → (wake_all ws c).1 ≡ none
    → notify ws c ≡ (record (wake_all ws c).0 { waiters = [] }, none)
unfolding notify
notify_lem ws c e = and_then-none (wake_all ws c) e

notifies-Inv : (s : Waiting) (ws : List Waiter) → s.copied ≡ some ws → Inv s → Inv (ended ws s)
notifies-Inv s ws q inv =
    let w : (k : ℕ) → _ = λ k.
      wake_all_lem ws s.condition k (λ j. ground (arith, inv.taken ws q j))
        (λ j p. ground (arith, inv.taken ws q j, inv.holds j)) in
    rw (notify_lem ws s.condition (w 0).0) (record {
      of_threads = λ k. ground (arith, inv.past k);
      of_tasks = λ k. ground (arith, inv.past k);
      holds = λ k. ground (arith, (w k).1, inv.taken ws q k, inv.holds k, inv.saw);
      early = λ k h. ground (arith, (w k).2, inv.taken ws q k, inv.early k);
      told =
          λ k h t. ground (arith, (w k).2, (w k).3, (w k).4, inv.told k, inv.taken ws q k, inv.saw);
      past = λ k h. ground (arith, inv.past k, inv.saw);
      gone = λ k h. ground (arith, inv.gone k);
      saw = inv.saw;
      taken = λ vs e. absurd cc;
      silent = rw inv.silent (ap (λ x. x.1) (notify_lem ws s.condition (w 0).0));
    })

some_same : {A : Type 0} {x y : A} → some x ≡ some y → x ≡ y
some_same e = cc

copies-Inv :
    (s : Waiting) → Inv s → Inv (record s { copied = some s.condition.waiters; seen = s.known })
copies-Inv s inv = record {
  of_threads = inv.of_threads;
  of_tasks = inv.of_tasks;
  holds = inv.holds;
  early = inv.early;
  told = inv.told;
  past = inv.past;
  gone = inv.gone;
  saw = omega arith;
  taken = λ ws e k.
      subst
        (λ vs.
          (threads k vs ≡ (if ltb k s.known && is_kept s k && s.is_thread k then 1 else 0))
          × (tasks k vs ≡ (if ltb k s.known && is_kept s k && not (s.is_thread k) then 1 else 0)))
        (some_same e) (ground (arith, inv.of_threads k), ground (arith, inv.of_tasks k));
  silent = inv.silent;
}

Reach-Inv : {closed : ℕ → Bool} {s : Waiting} → Reach closed s → Inv s
unfolding new_condition
Reach-Inv here = record {
  of_threads = λ k. ground arith;
  of_tasks = λ k. ground arith;
  holds = λ k. ground arith;
  early = λ k h. absurd cc;
  told = λ k h t. absurd cc;
  past = λ k h. absurd cc;
  gone = λ k h. absurd cc;
  saw = omega arith;
  taken = λ ws e. absurd cc;
  silent = refl;
}
Reach-Inv (next {s} r waits_sync) = waits_sync-Inv s (Reach-Inv r)
Reach-Inv (next {s} r waits_async) = waits_async-Inv s (Reach-Inv r)
Reach-Inv (next {s} r (gives_up k)) = gives_up-Inv s k (Reach-Inv r)
Reach-Inv (next {s} r (copies e)) = copies-Inv s (Reach-Inv r)
Reach-Inv (next {s} r (notifies ws e)) = notifies-Inv s ws e (Reach-Inv r)

abbrev pub waiter_of : Bool → ℕ → Waiter
waiter_of is_thread k = if is_thread then thread_waiter k else task_waiter k

-- Whatever threads and tasks register, give up and notify, in any order, where a waiter can register
-- while `notify` runs: `notify` never fails. A registered waiter goes on exactly if a `notify` that
-- has ended found it in the set, or if it is a task that was cancelled, provided that its event loop
-- is not closed. One that registered while a `notify` ran is cleared with the others, and is then
-- found by none.
pub Reach-goes_on :
    {closed : ℕ → Bool} {s : Waiting}
    → Reach closed s
    → (k : ℕ) → k < s.known
    → s.condition.closed k ≡ false
    → (s.error ≡ none)
      × (goes_on (waiter_of (s.is_thread k) k) s.condition
          ≡ (s.due k || not (s.is_thread k) && s.condition.cancelled k))
      × (s.lost k ≡ true → s.due k ≡ false)
Reach-goes_on {s = s} r k h o =
    let inv = Reach-Inv r in
    (
      inv.silent,
      elim (Bool-cases (s.is_thread k)) [
        | inl y ↦ rw y (ground (arith, inv.holds k))
        | inr n ↦ rw n (ground (arith, inv.early k, inv.told k))
      ],
      λ l. (inv.gone k l).0,
    )
