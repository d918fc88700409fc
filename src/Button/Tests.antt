-- ===== src/Button/Tests.antt =====
-- Runs of a button.
use aiodrive.Prelude.{ℕ, ◌≡◌, none, some, [], ◌∷◌}
use aiodrive.Asyncio.{returned}
use aiodrive.Button.{new, await, woken}
use aiodrive.Button.Laws.{new-IsReady, calls, woken-calls}

woken-calls_test :
    let c = new {A = ℕ} in
    (woken c (await c) ≡ none)
    × (woken (calls (4 ∷ 5 ∷ []) c).0 (await c) ≡ some (returned 4))
    × ((calls (4 ∷ 5 ∷ []) c).1 ≡ none)
woken-calls_test = woken-calls new 4 (5 ∷ []) new-IsReady
