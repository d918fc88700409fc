-- ===== src/Multiprocessing/Tests.antt =====
-- A run of two calls, and frames.
use aiodrive.Prelude.{ℕ, ◌+◌, ◌<◌, ◌≡◌, refl, Option, none, [], ◌∷◌, ◌++◌, arith}
use aiodrive.Asyncio.{connection_error, returned, Future}
use aiodrive.FutureState.{FutureState}
use aiodrive.Multiprocessing.{
  send, recv, create_task, cancel_task, occurs, DumpsError, child_receive, wait_task, new_parent,
  spawn, register, loop_eof, interrupt_spawn,
}
use aiodrive.Multiprocessing.Frames.{frame, recv-send}
use aiodrive.Multiprocessing.Steps.{
  System, start, end_task, spawns, registers, interrupts, delivers, begins_task, drops_task,
  ends_task, Reach, here, next,
}
use aiodrive.Multiprocessing.Answers.{Reach-drained, Reach-eof}

recv-send_example :
    (send (7 ∷ 8 ∷ []) ≡ returned (frame (7 ∷ 8 ∷ [])))
    × (recv 9 2 (frame (7 ∷ 8 ∷ []) ++ 1 ∷ []) ≡ returned (7 ∷ 8 ∷ [], 1 ∷ []))
recv-send_example = recv-send (7 ∷ 8 ∷ []) (1 ∷ []) 9 2 (omega arith) (omega arith) (omega arith)

-- No state is refused.
abbrev pickles : FutureState ℕ → Option DumpsError
pickles _ = none

abbrev before : System ℕ
before = record (start 0 pickles) {
  parent = register 1 (register 0 (spawn (spawn (start 0 pickles).parent).1).1);
  to_child = create_task 0 ∷ create_task 1 ∷ [];
}

before-Reach : Reach 0 pickles before
unfolding spawn register new_parent
before-Reach =
    next (next (next (next here spawns) spawns) (registers 0 (omega arith)))
      (registers 1 (omega arith))

abbrev running : System ℕ
running = record before { child = record { tasks = 1 ∷ 0 ∷ []; requested = [] }; to_child = [] }

running-Reach : Reach 0 pickles running
unfolding spawn register new_parent child_receive
running-Reach =
    next (next before-Reach (delivers (create_task 0) (create_task 1 ∷ []) _ refl refl))
      (delivers (create_task 1) [] _ refl refl)

-- The second task ends first.
abbrev answered : System ℕ
answered = end_task 0 pickles 1 (returned 5) (record running { begun = 1 ∷ [] })

answered-Reach : Reach 0 pickles answered
answered-Reach =
    next (next running-Reach (begins_task 1 (omega arith) refl))
      (ends_task 1 (returned 5) (omega arith) (omega arith))

-- The first task is asked to stop before its first step.
abbrev dropped_one : System ℕ
dropped_one = record running {
  child = record { tasks = 1 ∷ 0 ∷ []; requested = 0 ∷ [] };
  silenced = 0 ∷ [];
}

dropped_one-Reach : Reach 0 pickles dropped_one
unfolding spawn register new_parent child_receive interrupt_spawn
dropped_one-Reach =
    next
      (next (next running-Reach (interrupts 0 (cancel_task 0) (omega arith) refl))
        (delivers (cancel_task 0) [] _ refl refl))
      (drops_task 0 (omega arith) (omega arith) refl)

Reach-drained_example :
    (occurs 0 dropped_one.parent.tasks + occurs 0 dropped_one.sending ≡ 1)
    × (0 < occurs 0 dropped_one.silenced
        → (0 < occurs 0 dropped_one.parent.tasks + occurs 0 dropped_one.sending)
          × (occurs 0 dropped_one.begun ≡ 0))
Reach-drained_example = Reach-drained 0 pickles dropped_one-Reach refl refl refl 0

Reach-eof_test :
    ((loop_eof answered.parent).1 ≡ none)
    × ((loop_eof answered.parent).0.tasks ≡ [])
    × ((loop_eof answered.parent).0.futures 1 ≡ Future.failed connection_error)
unfolding spawn register new_parent wait_task loop_eof
Reach-eof_test = Reach-eof 0 pickles answered-Reach refl 1
