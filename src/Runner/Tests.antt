-- ===== src/Runner/Tests.antt =====
-- An awaitable that leaves a task behind.
use aiodrive.Prelude.{ℕ, ◌≡◌, refl, true, false, none}
use aiodrive.Asyncio.{runtime_error, returned, raised}
use aiodrive.Runner.{run}
use aiodrive.Runner.Laws.{run-enforced}

run-enforced_test :
    let (o, l) = run {A = ℕ} true none (returned 7) false true (returned tt) in
    (o ≡ raised runtime_error) × (l.tasks ≡ false) × (l.is_closed ≡ true)
run-enforced_test = run-enforced {A = ℕ} true none (returned 7) false true refl
