-- ===== src/NestableLock.antt =====
-- src/aiodrive/modules/nestable_lock.py: a lock that a context may acquire again. A context of
-- `contextvars` is a number, and `asyncio.Lock` is a flag.
pub mod Exclusion
mod Tests
use aiodrive.Prelude.{
  ◌==◌, if◌then◌else◌, update, ℕ, ◌+◌, ◌-◌, Bool, true, false, Option, none, some,
}

pub record NestableLock : Type 0 where
  pub context_var : ℕ → ℕ
  pub lock : Bool

unfoldable pub new_nestable : NestableLock
new_nestable = record { context_var = λ _. 0; lock = false }

-- `__aenter__` of a context: the lock afterwards, or `none` while it waits for the inner lock.
unfoldable pub aenter : ℕ → NestableLock → Option NestableLock
aenter c l =
    if l.context_var c == 0
    then if l.lock
      then none
      else some (record { context_var = update l.context_var c (l.context_var c + 1); lock = true })
    else some (record l { context_var = update l.context_var c (l.context_var c + 1) })

-- `__aexit__` of a context that is inside.
unfoldable pub aexit : ℕ → NestableLock → NestableLock
aexit c l = record {
  context_var = update l.context_var c (l.context_var c - 1);
  lock = if l.context_var c == 1 then false else l.lock;
}
