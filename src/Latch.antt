-- ===== src/Latch.antt =====
-- src/aiodrive/modules/latch.py: a flag whose changes wake the waiters. The futures are numbered
-- as in Button.antt, and `asyncio.shield` keeps a waiter's cancellation away from them.
pub mod Laws
mod Tests
use aiodrive.Prelude.{if◌then◌else◌, ℕ, Bool, true, false, not, none, some}
use aiodrive.Asyncio.{Effect, and_then}
use aiodrive.Button.{new, await, woken, Button, press}

pub record Latch : Type 0 where
  pub futures : Button
  pub is_set : Bool

unfoldable pub new_latch : Latch
new_latch = record { futures = new; is_set = false }

abbrev pub eqb : Bool → Bool → Bool
eqb true b = b
eqb false b = not b

-- `toggle`: the latch afterwards, and what it raised. `_set` is written after the futures.
unfoldable pub toggle : Bool → Latch → Effect Latch
toggle value l =
    if eqb l.is_set value
    then (l, none)
    else and_then (press l.futures) (λ b. (record { futures = b; is_set = value }, none)) (λ b. l)

unfoldable pub set : Latch → Effect Latch
unfolding toggle
set = toggle true

unfoldable pub unset : Latch → Effect Latch
unfolding toggle
unset = toggle false

-- Where a waiter stands: it goes on at once, or it sleeps on a future.
pub data Wait : Type 0 where
  proceeds : Wait
  sleeps : ℕ → Wait

unfoldable pub wait : Latch → Wait
wait l = sleeps (await l.futures)

unfoldable pub wait_set : Latch → Wait
wait_set l = if not l.is_set then sleeps (await l.futures) else proceeds

unfoldable pub wait_unset : Latch → Wait
wait_unset l = if l.is_set then sleeps (await l.futures) else proceeds

-- Whether a waiter can run.
unfoldable pub runnable : Latch → Wait → Bool
runnable l proceeds = true
runnable l (sleeps n) = elim (woken l.futures n) [ none ↦ false | some _ ↦ true ]
