-- ===== src/ThreadLock/Notified/Tests.antt =====
-- A thread that waits and is notified.
use aiodrive.Prelude.{ℕ, ◌≡◌, refl, Bool, true, false, none, some, [], arith}
use aiodrive.ThreadLock.Condition.{thread_waiter, new_condition, notify, wait_thread, goes_on}
use aiodrive.ThreadLock.Waiters.{
  Waiting, joins, ended, waits_sync, copies, notifies, Reach, here, next,
}
use aiodrive.ThreadLock.Notified.{Reach-goes_on}

-- No event loop is closed.
abbrev open_loops : ℕ → Bool
open_loops _ = false

abbrev nobody_waits : Waiting
nobody_waits = record {
  condition = new_condition open_loops;
  known = 0;
  is_thread = λ _. false;
  copied = none;
  seen = 0;
  due = λ _. false;
  lost = λ _. false;
  error = none;
}

abbrev one_waits : Waiting
one_waits = joins true (wait_thread 0 nobody_waits.condition) nobody_waits

abbrev copied_one : Waiting
copied_one = record one_waits { copied = some one_waits.condition.waiters; seen = 1 }

-- A second thread registers while `notify` runs.
abbrev second_joins : Waiting
second_joins = joins true (wait_thread 1 copied_one.condition) copied_one

abbrev notified : Waiting
notified = ended one_waits.condition.waiters second_joins

notified-Reach : Reach open_loops notified
notified-Reach =
    next (next (next (next here waits_sync) (copies refl)) waits_sync)
      (notifies one_waits.condition.waiters refl)

Reach-goes_on_example :
    (notified.error ≡ none)
    × (goes_on (thread_waiter 0) notified.condition ≡ true)
    × (notified.lost 0 ≡ true → notified.due 0 ≡ false)
unfolding notify wait_thread new_condition
Reach-goes_on_example = Reach-goes_on notified-Reach 0 (omega arith) refl

-- It is not in the set any more, and does not go on.
second_lost_test :
    (goes_on (thread_waiter 1) notified.condition ≡ false)
    × (notified.condition.waiters ≡ [])
    × (notified.lost 1 ≡ true)
unfolding notify wait_thread new_condition
second_lost_test = (refl, refl, refl)
