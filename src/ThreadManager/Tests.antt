-- ===== src/ThreadManager/Tests.antt =====
-- A call of a `ThreadManager` that is cancelled once before its task is created.
use aiodrive.Prelude.{update, ℕ, ◌+◌, ◌≡◌, refl, none, some, [], ◌∷◌, arith}
use aiodrive.Asyncio.{Outcome, returned, Future, settle, complete_task}
use aiodrive.FutureState.{transfer, absorb_awaitable}
use aiodrive.Scope.Guaranteed.{
  GuaranteedTask, new_guaranteed, task_main, guaranteed_cancel, starts, finishes, do_guaranteed,
}
use aiodrive.Shield.{completed}
use aiodrive.Shield.Waiting.{after_cancels, pending_task, ended_task}
use aiodrive.ThreadManager.{
  creates, cancels_call, new_manager, call_soon_threadsafe, manager_spawn, manager_interrupt,
  manager_cancel, manager_create, run_callback, create_task_end, spawn_loop,
}
use aiodrive.ThreadManager.Steps.{
  cancellations, System, first_error, start, set_task, delivered, spawns, interrupts, runs,
  starts_call, ends_call, ends_task, delivers, Reach, here, next,
}
use aiodrive.ThreadManager.Answers.{Reach-answered, Reach-settled, Reach-asked}
use aiodrive.ThreadManager.Spawned.{spawn_loop-after_cancels}

abbrev called : System ℕ
called = record start { manager = (manager_spawn (start {A = ℕ}).manager).1 }

abbrev interrupted : System ℕ
interrupted = record called {
  manager = call_soon_threadsafe (cancels_call 0) called.manager;
  asked = update called.asked 0 1;
}

abbrev running : System ℕ
running = record interrupted {
  manager =
      run_callback (creates 0) (record interrupted.manager { callbacks = cancels_call 0 ∷ [] });
}

running-Reach : Reach 0 running
unfolding manager_spawn manager_interrupt new_manager
running-Reach =
    next (next (next here spawns) (interrupts 0 _ (omega arith) refl))
      (runs (creates 0) (cancels_call 0 ∷ []) refl)

abbrev asked_once : System ℕ
asked_once = record running {
  manager = run_callback (cancels_call 0) (record running.manager { callbacks = [] });
}

asked_once-Reach : Reach 0 asked_once
unfolding manager_spawn new_manager run_callback manager_create
asked_once-Reach = next running-Reach (runs (cancels_call 0) [] refl)

abbrev first_task : GuaranteedTask ℕ
first_task = (guaranteed_cancel new_guaranteed).1

abbrev begun_task : GuaranteedTask ℕ
begun_task = do_guaranteed starts first_task

abbrev ended : System ℕ
ended = record asked_once {
  manager =
      set_task 0 (do_guaranteed (finishes (returned 7)) begun_task)
        (set_task 0 begun_task asked_once.manager);
  log = update asked_once.log 0 (some (returned 7));
}

ended-Reach : Reach 0 ended
unfolding manager_spawn new_manager run_callback manager_create manager_cancel new_guaranteed
    guaranteed_cancel do_guaranteed task_main
ended-Reach =
    next (next asked_once-Reach (starts_call 0 first_task refl))
      (ends_call 0 begun_task (returned 7) refl refl refl)

abbrev sent_back : System ℕ
sent_back = record ended { manager = create_task_end 0 0 (returned 7) ended.manager }

abbrev done_call : System ℕ
done_call = record sent_back {
  manager = delivered 0 (absorb_awaitable {A = ℕ} 0 (returned 7)) [] sent_back.manager;
  error = first_error none (transfer {A = ℕ} (absorb_awaitable 0 (returned 7)) Future.pending).1;
}

done_call-Reach : Reach 0 done_call
unfolding manager_spawn new_manager run_callback manager_create manager_cancel new_guaranteed
    guaranteed_cancel do_guaranteed task_main create_task_end complete_task
done_call-Reach =
    next (next ended-Reach (ends_task 0 _ (returned 7) refl refl))
      (delivers 0 (absorb_awaitable 0 (returned 7)) [] refl)

Reach-settled_example :
    (o : Outcome ℕ) × (done_call.log 0 ≡ some o) × (done_call.manager.futures 0 ≡ settle o)
unfolding manager_spawn new_manager run_callback manager_create manager_cancel create_task_end
Reach-settled_example = Reach-settled 0 done_call-Reach 0 (omega arith) refl refl refl

Reach-answered_test :
    (done_call.error ≡ none)
    × ((o : Outcome ℕ) × (done_call.log 0 ≡ some o) × (done_call.manager.futures 0 ≡ settle o))
unfolding manager_spawn new_manager run_callback manager_create manager_cancel create_task_end
    transfer absorb_awaitable
Reach-answered_test = Reach-answered 0 done_call-Reach 0 refl

Reach-asked_example :
    first_task.cancellation_count + cancellations 0 asked_once.manager.callbacks ≡ 1
unfolding manager_spawn new_manager run_callback manager_create manager_cancel new_guaranteed
    guaranteed_cancel
Reach-asked_example = Reach-asked 0 asked_once-Reach 0 first_task refl refl

spawn_loop-after_cancels_example :
    spawn_loop {A = ℕ} 4 (pending_task 0) (after_cancels 3 (returned 7) [])
    ≡ (completed (returned 7) (ended_task 0 (returned 7)), 3)
spawn_loop-after_cancels_example = spawn_loop-after_cancels 4 3 0 (returned 7) [] (omega arith)
