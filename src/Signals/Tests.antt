-- ===== src/Signals/Tests.antt =====
-- A generator that has seen two signals between two items.
use aiodrive.Prelude.{◌≤◌, ◌≡◌, refl, true, some, [], ◌∷◌}
use aiodrive.Asyncio.{returned}
use aiodrive.Signals.{
  arrives, interrupts, wait_for_signal, start_watch, receive_signal, resume_watch,
}
use aiodrive.Signals.Seen.{
  Seen, signals, Reach, here, next, is_some, Reach-seen, wait_for_signal_ends,
}

abbrev after_two : Seen
after_two = record {
  watcher = receive_signal 2 (receive_signal 15 (start_watch (2 ∷ 15 ∷ [])));
  unseen = 2;
  total = 2;
  items = 0;
}

after_two-Reach : Reach (2 ∷ 15 ∷ []) after_two
unfolding start_watch receive_signal
after_two-Reach = next (next here (signals 15 refl)) (signals 2 refl)

Reach-seen_example :
    (is_some (resume_watch after_two.watcher) ≡ true)
    × (after_two.items ≤ 2)
    × (after_two.watcher.handlers ≡ 2 ∷ 15 ∷ [])
unfolding start_watch receive_signal
Reach-seen_example = Reach-seen after_two-Reach

wait_for_signal_ends_test :
    wait_for_signal (2 ∷ []) (arrives 1 ∷ arrives 2 ∷ interrupts ∷ []) ≡ (some (returned tt), [])
wait_for_signal_ends_test = (wait_for_signal_ends (2 ∷ []) (1 ∷ []) 2 (interrupts ∷ []) refl refl).0
