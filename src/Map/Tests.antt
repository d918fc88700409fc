-- ===== src/Map/Tests.antt =====
-- Three items with at most two mappers.
use aiodrive.Prelude.{get_elem?, ℕ, ◌+◌, ◌≤◌, ◌≡◌, refl, false, none, some, [], ◌∷◌, map, arith}
use aiodrive.Map
use aiodrive.Map.{start, take_item, stop, finish, fetches, maps, run}
use aiodrive.Button.{new, press}
use aiodrive.Queue.{new_ordered, aiter, close, reserve, put}
use aiodrive.Queue.Ordered.{poll, put_at}
use aiodrive.Map.Bounded.{run-bounded, run-full}
use aiodrive.Map.Pipeline
use aiodrive.Map.Pipeline.{
  Pipeline, begin, fetch, exhaust, deliver, exhausts, delivers, Reach, here, next,
}
use aiodrive.Map.Results.{map_ordered, map-stopped, map_finishes}

run-bounded_example : (run (some 2) (fetches ∷ maps ∷ fetches ∷ fetches ∷ []) (start 3)).mapping ≤ 2
run-bounded_example = run-bounded 2 3 (fetches ∷ maps ∷ fetches ∷ fetches ∷ []) (omega arith)

run-full_test :
    ((run (some 2) (fetches ∷ fetches ∷ maps ∷ maps ∷ fetches ∷ []) (start 3)).remaining ≡ 1)
    × ((run (some 2) (fetches ∷ fetches ∷ maps ∷ maps ∷ fetches ∷ []) (start 3)).closed ≡ false)
run-full_test = run-full 2 1 (maps ∷ maps ∷ fetches ∷ []) (omega arith)

-- Two items without a bound: the second is mapped first.
abbrev next_number : ℕ → ℕ
next_number n = n + 1

abbrev started : Pipeline ℕ ℕ
started = exhaust next_number none (
    fetch next_number none 8 []
      (fetch next_number none 3 (8 ∷ []) (begin next_number none (3 ∷ 8 ∷ []))))

abbrev mapped : Pipeline ℕ ℕ
mapped = deliver next_number none 0 3 (deliver next_number none 1 8 started)

abbrev polled : Pipeline ℕ ℕ → Pipeline ℕ ℕ
polled p = record p { system = poll p.system }

abbrev finished : Pipeline ℕ ℕ
finished = polled (polled (polled mapped))

mapped-Reach : Pipeline.Reach next_number none (3 ∷ 8 ∷ []) mapped
unfolding Map.start take_item reserve new_ordered
mapped-Reach =
    let a = Pipeline.next Pipeline.here (Pipeline.fetches 3 (8 ∷ []) refl refl) in
    let b = Pipeline.next a (Pipeline.fetches 8 [] refl refl) in
    let c = Pipeline.next b (Pipeline.exhausts refl refl) in
    let d = Pipeline.next c (Pipeline.delivers 1 8 refl) in
    Pipeline.next d (Pipeline.delivers 0 3 refl)

finished-Reach : Pipeline.Reach next_number none (3 ∷ 8 ∷ []) finished
unfolding Map.start take_item reserve new_ordered put_at put poll aiter close press new
finished-Reach =
    let e = Pipeline.next mapped-Reach (Pipeline.polls refl) in
    let f = Pipeline.next e (Pipeline.polls refl) in Pipeline.next f (Pipeline.polls refl)

map_ordered_test : get_elem? finished.system.out 1 ≡ get_elem? (map next_number (3 ∷ 8 ∷ [])) 1
unfolding Map.start take_item reserve new_ordered put_at put poll aiter close press new
map_ordered_test = map_ordered next_number none (3 ∷ 8 ∷ []) finished-Reach 1 (omega arith)

map-stopped_example : finished.system.out ≡ 4 ∷ 9 ∷ []
unfolding Map.start take_item reserve new_ordered put_at put poll aiter close press new
map-stopped_example = map-stopped next_number none (3 ∷ 8 ∷ []) finished-Reach refl

nothing_runs : (i : ℕ) → finished.running i ≡ none
unfolding Map.start take_item reserve new_ordered put_at put poll aiter close press new
nothing_runs i = ground arith

map_finishes_example : finished.system.out ≡ 4 ∷ 9 ∷ []
unfolding Map.start take_item reserve new_ordered put_at put poll aiter close press new stop finish
map_finishes_example =
    map_finishes next_number none (3 ∷ 8 ∷ []) finished-Reach refl refl nothing_runs refl
