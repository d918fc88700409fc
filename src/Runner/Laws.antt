-- ===== src/Runner/Laws.antt =====
-- What src/aiodrive/modules/run.py returns, and what is left of the loop.
-- A loop that `run` takes: none, for a new one, or one that is neither closed nor running.
use aiodrive.Prelude.{
  if◌then◌else◌, ◌≡◌, Bool, true, false, not, ◌&&◌, ◌||◌, Option, none, some, arith,
}
use aiodrive.Asyncio.{runtime_error, Outcome, returned, raised}
use aiodrive.Runner.{EventLoop, check_tasks, shut_down, run_in, run}

abbrev pub is_usable : Option EventLoop → Bool
is_usable none = true
is_usable (some l) = not (l.is_closed || l.is_running)

abbrev pub is_base_loop : Option EventLoop → Bool
is_base_loop none = true
is_base_loop (some l) = l.is_base

module _ {A : Type 0} where
  -- In a loop that is open and not running, or in a new one, whose executor shuts down: the outcome
  -- is that of the awaitable, unless structured concurrency is enforced and tasks, or the
  -- generators of a `BaseEventLoop`, are left, which raises a `RuntimeError`; in every case no task
  -- is left and the loop is closed.
  pub run-enforced :
      (enforce : Bool) (given : Option EventLoop) (o : Outcome A) (gens tasks : Bool)
      → is_usable given ≡ true
      → let (o', l) = run enforce given o gens tasks (returned tt) in
        (o'
          ≡ (if enforce && (is_base_loop given && gens || tasks) then raised runtime_error else o))
        × (l.tasks ≡ false)
        × (l.is_closed ≡ true)
  unfolding run run_in shut_down check_tasks
  run-enforced enforce none o gens tasks h = (ground arith, ground arith, ground arith)
  run-enforced enforce (some l) o gens tasks h = (ground arith, ground arith, ground arith)
