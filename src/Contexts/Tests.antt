-- ===== src/Contexts/Tests.antt =====
-- Two managers, of which the second fails to enter after the first has entered.
use aiodrive.Prelude.{count, all, ℕ, ◌≡◌, refl, true, List, [], ◌∷◌}
use aiodrive.Asyncio.{value_error, returned, raised, pending, Task, task_done, complete_task}
use aiodrive.Gather
use aiodrive.Gather.Schedule.{Event, completes, wakes}
use aiodrive.Contexts.{enter_contexts, enter_context, step, run, exit_contexts}
use aiodrive.Contexts.Entered.{entered_at, exit_contexts-entered}

abbrev new_task : Task ℕ
new_task = record { future = pending; requests = 0 }

abbrev events : List (Event ℕ)
events = completes 0 (returned 5) ∷ completes 1 (raised value_error) ∷ wakes ∷ wakes ∷ []

exit_contexts-entered_example :
    let c = run events (enter_contexts (new_task ∷ new_task ∷ [])) in
    (all task_done c.entering.tasks ≡ true)
    × ((j : ℕ) → count j (exit_contexts c) ≡ entered_at j c.entering.tasks)
unfolding run step enter_context enter_contexts Gather.start Gather.complete Gather.wake
    Gather.complete_at Gather.verdict Gather.exceptions complete_task
exit_contexts-entered_example =
    exit_contexts-entered (new_task ∷ new_task ∷ []) events ((refl, refl), ((refl, refl), tt)) refl
