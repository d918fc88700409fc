-- ===== src/SmartLock/Tests.antt =====
-- A reader that owns the lock, and a second one.
use aiodrive.Prelude.{◌≡◌, refl, false, [], ◌∷◌, ◌++◌}
use aiodrive.SmartLock.{
  exclusive, shared, SmartLock, new_smart, serve, update_lock, use_lock, enter_lock, leave_lock,
}
use aiodrive.SmartLock.Exclusion.{
  IsExclusive, Reach, unused, uses, enters, leaves, Reach-IsExclusive, ids, update_lock-repeats,
}

abbrev reading : SmartLock
reading = enter_lock 0 (use_lock shared false new_smart)

reading-Reach : Reach (leave_lock 1 (use_lock exclusive false reading))
reading-Reach = leaves 1 (uses exclusive false (enters 0 (uses shared false unused)))

Reach-IsExclusive_example : IsExclusive (leave_lock 1 (use_lock exclusive false reading)).owners
Reach-IsExclusive_example = Reach-IsExclusive reading-Reach

abbrev second_reader : SmartLock
second_reader = record reading {
  waiters = reading.waiters ++ (1, record { mode = shared; weak = false }) ∷ [];
}

update_lock-repeats_test :
    (ids (update_lock second_reader).owners ≡ 0 ∷ [])
    × ((update_lock second_reader).resolved ≡ 0 ∷ 0 ∷ [])
unfolding new_smart use_lock enter_lock update_lock serve
update_lock-repeats_test =
    update_lock-repeats second_reader 0 (record { mode = shared; weak = false })
      ((1, record { mode = shared; weak = false }) ∷ []) refl refl refl refl
