-- ===== src/FileModes/Tests.antt =====
-- A terminal in raw mode around one that fails in unbuffered mode.
use aiodrive.Prelude.{ℕ, ◌+◌, ◌≡◌, true}
use aiodrive.Asyncio.{value_error}
use aiodrive.FileModes.{Modes, rawmode, unbuffered, Program, stops, raises, inside, run}
use aiodrive.FileModes.Restored.{run-restores}

abbrev add_one : ℕ → ℕ
add_one n = n + 1

abbrev some_modes : Modes ℕ
some_modes = record { blocking = λ _. true; attr = λ fd. fd }

abbrev nested : Program add_one add_one
nested = inside rawmode 1 (inside unbuffered 1 (raises value_error) stops) stops

run-restores_test : (run add_one add_one nested some_modes).0 ≡ some_modes
run-restores_test = run-restores add_one add_one nested some_modes
