-- ===== src/Scope/Tests.antt =====
-- Runs of scopes, signal handlers, background tasks and guaranteed tasks.
use aiodrive.Prelude.{◌≡◌, refl, List, [], ◌∷◌}
use aiodrive.Asyncio.{
  cancelled_error, value_error, key_error, signal_handled, group, end, more, returned, raised,
  Future,
}
use aiodrive.Shield.{completed}
use aiodrive.Shield.Waiting.{ended_task}
use aiodrive.Scope.{
  enter_scope, leave, use_scope, enter_handler, handle_signal, background_done, contextualize,
}
use aiodrive.Scope.Laws.{
  Request, by_scope, from_outside, receive_all, in_block, use_scope-cancelled,
}
use aiodrive.Scope.Signals.{
  Arrival, signals, arrive_all, handle_signal-cancelled, handle_signal-returned,
}
use aiodrive.Scope.Background.{contextualize-failed}
use aiodrive.Scope.Guaranteed.{
  new_guaranteed, guaranteed_cancelling, Deed, uncancels, starts, all_guaranteed, all_plain,
  all_guaranteed-all_plain,
}

abbrev some_requests : List Request
some_requests = by_scope ∷ from_outside ∷ by_scope ∷ []

use_scope-cancelled_example :
    use_scope (receive_all some_requests (enter_scope 0)) (raised cancelled_error)
    ≡ (raised cancelled_error, leave (in_block 2 1))
use_scope-cancelled_example = use_scope-cancelled 0 some_requests

abbrev two_signals : List Arrival
two_signals = signals 2 ∷ signals 15 ∷ []

handle_signal-cancelled_test :
    ((handle_signal (arrive_all two_signals (enter_handler 0)) (raised cancelled_error)).0
      ≡ raised (signal_handled 15))
    × ((handle_signal
          (arrive_all two_signals (enter_handler 0))
          (raised cancelled_error)).1.scoped.requests
        ≡ 0)
handle_signal-cancelled_test = handle_signal-cancelled 0 two_signals

handle_signal-returned_test :
    ((handle_signal (arrive_all two_signals (enter_handler 0)) (returned tt)).0
      ≡ raised (signal_handled 15))
    × ((handle_signal (arrive_all two_signals (enter_handler 0)) (returned tt)).1.scoped.requests
        ≡ 2)
handle_signal-returned_test = handle_signal-returned 0 two_signals

contextualize-failed_test :
    contextualize
      (background_done (ended_task 0 (raised value_error)) (enter_scope 0)).0
      (raised key_error)
      (ended_task 0 (raised value_error))
      []
    ≡ completed
        (raised (group (more key_error (more value_error end))))
        (ended_task 0 (raised value_error))
contextualize-failed_test =
    contextualize-failed (enter_scope 0) (raised key_error) 0 value_error [] refl

abbrev some_deeds : List (Deed (Unit {0}))
some_deeds = Deed.cancels ∷ Deed.cancels ∷ uncancels ∷ starts ∷ Deed.cancels ∷ []

all_guaranteed-all_plain_example :
    ((all_guaranteed some_deeds new_guaranteed).parent.future ≡ Future.pending)
    × (guaranteed_cancelling (all_guaranteed some_deeds new_guaranteed) ≡ 2)
    × ((all_guaranteed some_deeds new_guaranteed).parent.requests ≡ 2)
unfolding all_plain
all_guaranteed-all_plain_example = all_guaranteed-all_plain some_deeds refl
