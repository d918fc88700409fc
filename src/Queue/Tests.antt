-- ===== src/Queue/Tests.antt =====
-- Histories of the queues.
use aiodrive.Prelude.{
  length, get_elem?, ℕ, ◌<◌, ◌≡◌, refl, ◌⊎◌, true, false, none, some, [], ◌++◌, arith,
}
use aiodrive.Button.{new, call, await, woken, press}
use aiodrive.Queue.{
  ends, new_ordered, aiter, close, reserve, put, new_unordered, aiter_unordered, close_unordered,
}
use aiodrive.Queue.Unordered
use aiodrive.Queue.Ordered.{
  System, can_run, start, poll, put_at, reserves, closes, puts, polls, Reach, here, next,
  out-ordered, out_complete, no_lost_wakeup,
}

-- Two places are reserved, the second item is put first, then the first one.
abbrev swapped : System ℕ
swapped =
    put_at 0 7 (put_at 1 8 (record start { queue = (reserve (reserve (start {A = ℕ}).queue).0).0 }))

abbrev twice : System ℕ
twice = record start { queue = (reserve (reserve (start {A = ℕ}).queue).0).0 }

twice-Reach : Reach twice
twice-Reach = next (next here reserves) reserves

swapped-Reach : Reach swapped
unfolding reserve new_ordered put_at put press call
swapped-Reach = next (next twice-Reach (puts 1 8 (omega arith) refl)) (puts 0 7 (omega arith) refl)

abbrev polled : System ℕ
polled = poll (poll swapped)

polled-Reach : Reach polled
unfolding reserve new_ordered put_at put press call poll aiter new await woken
polled-Reach = next (next swapped-Reach (polls refl)) (polls refl)

out-ordered_example : get_elem? polled.out 1 ≡ some 8
unfolding reserve new_ordered put_at put press call poll aiter new await woken
out-ordered_example = out-ordered polled-Reach 1 (omega arith)

abbrev finished_system : System ℕ
finished_system = poll (record polled { queue = (close polled.queue).0 })

out_complete_test : (length finished_system.out ≡ 2) × (finished_system.queue.closed ≡ true)
unfolding reserve new_ordered put_at put press call poll aiter new await woken close
out_complete_test = out_complete (next (next polled-Reach closes) (polls refl)) refl

no_lost_wakeup_example :
    (polled.log 2 ≡ none)
    × (((poll polled).queue.closed ≡ false) ⊎ (2 < (poll polled).queue.reserved_count))
unfolding reserve new_ordered put_at put press call poll aiter new await woken
no_lost_wakeup_example = no_lost_wakeup {s = poll polled} (next polled-Reach (polls refl)) refl refl

abbrev waiting : Unordered.System ℕ
waiting = Unordered.poll Unordered.start

waiting-Reach : Unordered.Reach Unordered.start waiting
waiting-Reach = Unordered.next Unordered.here (Unordered.polls refl)

out-fifo_test : waiting.out ++ waiting.queue.items ≡ []
unfolding Unordered.poll aiter_unordered new_unordered
out-fifo_test = Unordered.out-fifo waiting-Reach

close-strands_test :
    (can_run (close_unordered waiting.queue).0.button waiting.consumer ≡ false)
    × (aiter_unordered (close_unordered waiting.queue).0 ≡ ends)
unfolding Unordered.poll aiter_unordered new_unordered
close-strands_test = Unordered.close-strands waiting-Reach refl refl refl Unordered.here
