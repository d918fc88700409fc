-- ===== src/Process/Tests.antt =====
-- A process that is interrupted three times, and one that is polled.
use aiodrive.Prelude.{◌≡◌, refl, true, false, some, [], ◌∷◌}
use aiodrive.Asyncio.{cancelled_error, returned, raised}
use aiodrive.Process.{cancels, exits, ends, wait}
use aiodrive.Process.Laws.{running, exited, wait-cancels}
use aiodrive.Process.Ended.{found, no_process, opened, refused, asks, wait_for_process}
use aiodrive.Process.Reported.{platform, wait_for_process-is_reported}

wait-cancels_test :
    wait 0 2 15 (running []) (cancels ∷ cancels ∷ cancels ∷ exits 0 ∷ [])
    ≡ ends (raised cancelled_error) (exited 0 (2 ∷ 15 ∷ 15 ∷ [])) 3
wait-cancels_test = wait-cancels 3 0 2 15 0 []

wait_for_process-is_reported_example :
    wait_for_process (platform false opened true refused) [] (asks found ∷ asks no_process ∷ [])
    ≡ returned (some tt)
wait_for_process-is_reported_example =
    wait_for_process-is_reported (platform false opened true refused) []
      (asks found ∷ asks no_process ∷ []) refl refl refl
