-- ===== src/Cancel/Tests.antt =====
-- Runs of `suppress`, `volatile_task_group` and `cancel_task`.
use aiodrive.Prelude.{◌≡◌, true, false}
use aiodrive.Asyncio.{value_error, task_group_terminated, group, Exns, end, more, returned, raised}
use aiodrive.Cancel.{unmatched, suppress, is_terminated, volatile_task_group}
use aiodrive.Cancel.Suppress.{is_returned, suppress_returns, volatile_task_group_returned}

abbrev some_errors : Exns
some_errors = more value_error (more (group (more task_group_terminated end)) end)

suppress_returns_test :
    is_returned (suppress is_terminated true true 0 1 (raised (group some_errors))) ≡ false
suppress_returns_test = suppress_returns is_terminated true 0 1 (raised (group some_errors))

volatile_task_group_returned_test :
    volatile_task_group 1 1 some_errors (returned tt) ≡ raised (group (more value_error end))
unfolding unmatched
volatile_task_group_returned_test = volatile_task_group_returned 1 some_errors
