-- ===== src/ThreadLock/Condition.antt =====
-- `ThreadsafeCondition` of src/aiodrive/modules/thread_safe_lock.py, from the point at which a caller
-- of `wait` or `wait_sync` has released the lock. A waiter is the number of its future or of its
-- own lock.
use aiodrive.Prelude.{
  if◌then◌else◌, update, ℕ, Bool, true, false, not, ◌||◌, none, some, List, [], ◌∷◌, ◌++◌,
}
use aiodrive.Asyncio.{runtime_error, Effect, and_then}

pub data Waiter : Type 0 where
  thread_waiter task_waiter : ℕ → Waiter

-- `held` are the locks of the waiting threads that are acquired; `signalled`, `cancelled` and
-- `closed` say of a future that its result is scheduled, that it is cancelled, and that its event
-- loop is closed.
pub record ThreadsafeCondition : Type 0 where
  pub waiters : List Waiter
  pub held : ℕ → Bool
  pub signalled : ℕ → Bool
  pub cancelled : ℕ → Bool
  pub closed : ℕ → Bool

unfoldable pub new_condition : (ℕ → Bool) → ThreadsafeCondition
new_condition closed = record {
  waiters = [];
  held = λ _. false;
  signalled = λ _. false;
  cancelled = λ _. false;
  closed = closed;
}

-- One round of the loop of `notify`: a lock that is not held cannot be released.
abbrev pub wake_waiter : Waiter → ThreadsafeCondition → Effect ThreadsafeCondition
wake_waiter (thread_waiter k) c =
    if c.held k then (record c { held = update c.held k false }, none) else (c, some runtime_error)
wake_waiter (task_waiter k) c = (
  if c.cancelled k || c.closed k then c else record c { signalled = update c.signalled k true },
  none,
)

abbrev pub wake_all : List Waiter → ThreadsafeCondition → Effect ThreadsafeCondition
wake_all [] c = (c, none)
wake_all (w ∷ ws) c = and_then (wake_waiter w c) (wake_all ws) (λ c'. c')

-- `notify` from the end of `list(self._waiters)` on. Waiters are added without a lock, so that one
-- can be added after that and before the set is cleared.
unfoldable pub notify : List Waiter → ThreadsafeCondition → Effect ThreadsafeCondition
notify copied c = and_then (wake_all copied c) (λ c'. (record c' { waiters = [] }, none)) (λ c'. c')

-- `wait_sync` up to its second `acquire`, and `wait` up to `await future`.
unfoldable pub wait_thread : ℕ → ThreadsafeCondition → ThreadsafeCondition
wait_thread k c = record c {
  held = update c.held k true;
  waiters = c.waiters ++ thread_waiter k ∷ [];
}

unfoldable pub wait_future : ℕ → ThreadsafeCondition → ThreadsafeCondition
wait_future k c = record c { waiters = c.waiters ++ task_waiter k ∷ [] }

abbrev pub cancel_waiter : ℕ → ThreadsafeCondition → ThreadsafeCondition
cancel_waiter k c = record c { cancelled = update c.cancelled k true }

-- Whether the waiter can go on.
abbrev pub goes_on : Waiter → ThreadsafeCondition → Bool
goes_on (thread_waiter k) c = not (c.held k)
goes_on (task_waiter k) c = c.signalled k || c.cancelled k
