-- ===== src/NestableLock/Tests.antt =====
-- A context that has entered twice.
use aiodrive.Prelude.{update, ℕ, ◌≡◌, refl, true, some, arith}
use aiodrive.NestableLock.{NestableLock, new_nestable, aenter}
use aiodrive.NestableLock.Exclusion.{Reach, here, enters, Reach-alone}

abbrev once : NestableLock
once = record { context_var = update (λ _. 0) 4 1; lock = true }

once-Reach : Reach once
unfolding aenter new_nestable
once-Reach = enters 4 once here refl

Reach-alone_example :
    (◌≡◌ {A = ℕ} 4 4)
    × (aenter 4 once ≡ some (record once { context_var = update once.context_var 4 2 }))
Reach-alone_example = Reach-alone once-Reach 4 4 (omega arith) (omega arith)
