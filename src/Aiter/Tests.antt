-- ===== src/Aiter/Tests.antt =====
-- Three numbers.
use aiodrive.Prelude.{length, ℕ, ◌+◌, ◌≤◌, max, ◌≡◌, refl, true, false, none, some, List, [], ◌∷◌}
use aiodrive.Asyncio.{stop_async_iteration, group, end, more, returned, raised, settle, Task}
use aiodrive.Gather.{exceptions, verdict}
use aiodrive.Aiter.{Stream, stops, gives, collect, reduce, buffer_aiter, produce, consume}
use aiodrive.Aiter.Folds.{reduce-collect}
use aiodrive.Aiter.Prefetch.{run, run-buffer_aiter}
use aiodrive.Aiter.Zip.{zip_concurrently, zip_concurrently_exhausted}

abbrev numbers : Stream ℕ
numbers = gives 7 (gives 2 (gives 5 stops))

reduce-collect_test : reduce ◌+◌ numbers none ≡ returned 14
unfolding collect
reduce-collect_test = reduce-collect ◌+◌ numbers none

run-buffer_aiter_test :
    (length (run (some 2) (true ∷ true ∷ true ∷ false ∷ false ∷ []) (buffer_aiter numbers)).queue
      ≤ max 1 2)
    × (length (run (some 2) (true ∷ true ∷ true ∷ false ∷ false ∷ []) (buffer_aiter numbers)).out
        ≤ 1)
run-buffer_aiter_test = run-buffer_aiter 2 (true ∷ true ∷ true ∷ false ∷ false ∷ []) numbers

one_item_test :
    (run (some 2) (true ∷ true ∷ true ∷ false ∷ false ∷ []) (buffer_aiter numbers)).out ≡ 7 ∷ []
unfolding buffer_aiter produce consume
one_item_test = refl

abbrev stopped_round : List (Task ℕ)
stopped_round =
    record { future = settle (returned 3); requests = 0 }
    ∷ record { future = settle (raised stop_async_iteration); requests = 0 }
    ∷ []

zip_concurrently_exhausted_example :
    zip_concurrently (returned (1 ∷ 2 ∷ []) ∷ verdict false stopped_round ∷ [])
    ≡ ((1 ∷ 2 ∷ []) ∷ [], some (group (more stop_async_iteration end)))
unfolding exceptions
zip_concurrently_exhausted_example =
    zip_concurrently_exhausted ((1 ∷ 2 ∷ []) ∷ []) false stopped_round stop_async_iteration [] []
      refl refl
