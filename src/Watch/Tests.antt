-- ===== src/Watch/Tests.antt =====
-- A path of three parts, of which the last is deleted, and a file that is written to twice.
use aiodrive.Prelude.{leb, ℕ, ◌≡◌, refl, Bool, true, false, none, some, [], ◌∷◌, arith}
use aiodrive.Asyncio.{runtime_error}
use aiodrive.Watch.{
  create, delete, write, Reporter, new_reporter, eager_callback, late_callback, fire, update_down,
  internal_callback,
}
use aiodrive.Watch.Reports.{misses, sees, IsTold, fire-IsTold, run, run-calls}
use aiodrive.Watch.Composed
use aiodrive.Watch.Composed.{feed, Watching, begins, handles, Reach-IsInformed}
use aiodrive.Watch.Paths.{IsDeepest, IsTree, internal_callback-expected}

abbrev two_parts : ℕ → Bool
two_parts k = leb k 1

two_parts-IsTree : IsTree two_parts two_parts
two_parts-IsTree = record { root = refl; up = λ k e. ground arith; seen = λ k e. e }

internal_callback-expected_example :
    (k : ℕ) × (IsDeepest two_parts two_parts 2 k)
    × (internal_callback two_parts two_parts 3 2 true 2 ≡ (some k, delete ∷ []))
internal_callback-expected_example =
    internal_callback-expected two_parts two_parts 1 2 2 true two_parts-IsTree (omega arith)
      (λ _. omega arith) (λ e. cc)

abbrev written : Reporter
written = eager_callback true true write (eager_callback true true delete new_reporter)

fire-IsTold_test : IsTold (fire written) write
unfolding eager_callback new_reporter
fire-IsTold_test = fire-IsTold (sees write misses)

run-calls_test : (run true (some create ∷ some write ∷ none ∷ []) new_reporter).calls ≡ []
run-calls_test = run-calls true (some create ∷ some write ∷ none ∷ [])

-- Without a delay, a deletion, a creation and a deletion before the event loop runs the calls.
abbrev recreated : Reporter
recreated = eager_callback true false delete (
    eager_callback true false create
      (eager_callback true false delete (eager_callback true false create new_reporter)))

recreated_fails : (fire (fire recreated)).error ≡ some runtime_error
unfolding eager_callback new_reporter fire late_callback
recreated_fails = refl

abbrev three_parts : ℕ → Bool
three_parts k = leb k 2

three_parts-IsTree : IsTree three_parts three_parts
three_parts-IsTree = record { root = refl; up = λ k e. ground arith; seen = λ k e. e }

abbrev found_file : Watching
found_file = record { watched = 2; reporter = feed (create ∷ []) new_reporter; present = true }

abbrev lost_file : Watching
lost_file = record {
  watched = 1;
  reporter = feed (delete ∷ []) found_file.reporter;
  present = false;
}

lost_file-Reach : Composed.Reach 2 lost_file
unfolding update_down internal_callback
lost_file-Reach =
    let a = Composed.begins three_parts three_parts 2 (create ∷ []) three_parts-IsTree refl in
    Composed.handles two_parts two_parts true 1 (delete ∷ []) a two_parts-IsTree (λ _. omega arith)
      (λ e. cc) refl

Reach-IsInformed_example : (false ≡ false) × Composed.IsInformed 2 false (fire lost_file.reporter)
Reach-IsInformed_example = Composed.Reach-IsInformed 2 lost_file-Reach
