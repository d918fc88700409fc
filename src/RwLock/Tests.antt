-- ===== src/RwLock/Tests.antt =====
-- Histories of the lock.
use aiodrive.Prelude.{◌≡◌, refl, [], ◌∷◌}
use aiodrive.RwLock.{
  read, write, writing, RwLock, new, acquire, release, acquires, releases, step, run,
}
use aiodrive.RwLock.Exclusion.{Inv, run-new-Inv}
use aiodrive.RwLock.Cancelled.{cancelled_writer_owns}

run-new-Inv_example : Inv (run (acquires read ∷ acquires write ∷ releases 0 ∷ []) new)
run-new-Inv_example = run-new-Inv (acquires read ∷ acquires write ∷ releases 0 ∷ [])

-- 0 writes, and 1 waits to write.
abbrev contended : RwLock
contended = record {
  next_id = 2;
  queue_read = [];
  queue_write = 1 ∷ [];
  state = writing;
  owner_ids = 0 ∷ [];
  signalled = [];
}

contended_lem : run (acquires write ∷ acquires write ∷ []) new ≡ contended
unfolding run step acquire new
contended_lem = refl

cancelled_writer_owns_test :
    let l' =
      run (acquires read ∷ releases 2 ∷ acquires write ∷ []) (release 0 (release 1 contended)) in
    (l'.state ≡ writing) × (l'.owner_ids ≡ 1 ∷ [])
cancelled_writer_owns_test =
    cancelled_writer_owns 0 1 [] (acquires read ∷ releases 2 ∷ acquires write ∷ []) contended refl
      refl (λ e. cc e) refl
