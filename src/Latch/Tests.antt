-- ===== src/Latch/Tests.antt =====
-- Runs of a latch.
use aiodrive.Prelude.{◌≡◌, true, false, [], ◌∷◌}
use aiodrive.Latch.{new_latch, runnable}
use aiodrive.Latch.Laws.{new_latch-IsSound, toggles, wait_for, runnable-wait_for}

runnable-wait_for_test :
    runnable (toggles (false ∷ true ∷ false ∷ []) new_latch).0 (wait_for true new_latch) ≡ true
unfolding new_latch
runnable-wait_for_test =
    runnable-wait_for true (false ∷ true ∷ false ∷ []) new_latch new_latch-IsSound
