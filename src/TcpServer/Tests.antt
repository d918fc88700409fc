-- ===== src/TcpServer/Tests.antt =====
-- A server with a handler that failed, and a connection from an address that is not one.
use aiodrive.Prelude.{ℕ, ◌≡◌, Option, some, [], ◌∷◌}
use aiodrive.Asyncio.{
  cancelled_error, value_error, task_group_terminated, Exns, end, more, Outcome, returned, raised,
}
use aiodrive.Shield.Waiting.{after_cancels, pending_task}
use aiodrive.TcpServer.{
  of_two, of_other, parse_name, call_handler, handle_connection, suspends, closes_server,
  joins_handlers, waits_closed, listen_end,
}
use aiodrive.TcpServer.Closing.{listen_end-closes, listen_end_unclosed, handle_connection-ends}

listen_end-closes_test :
    listen_end 0 0 end
      (returned tt)
      (returned tt)
      (pending_task 0)
      (after_cancels 1 (returned tt) [])
    ≡ (some (raised cancelled_error), suspends ∷ closes_server ∷ joins_handlers ∷ waits_closed ∷ [])
listen_end-closes_test = listen_end-closes 0 0 1 end (returned tt)

listen_end_unclosed_test :
    (listen_end 0 1 end (raised cancelled_error) (returned tt) (pending_task 0) []).1
    ≡ suspends ∷ joins_handlers ∷ waits_closed ∷ []
listen_end_unclosed_test = listen_end_unclosed 0 1 end (returned tt) (pending_task 0) []

abbrev failed_handler : Exns
failed_handler = more value_error (more task_group_terminated end)

abbrev after_failure : Option (Outcome (Unit {0}))
after_failure =
    (listen_end 0 0 failed_handler (returned tt) (returned tt) (pending_task 0)
      (after_cancels 0 (returned tt) [])).0

abbrev read_no : ℕ → Outcome ℕ
read_no n = raised value_error

handle_connection-ends_test :
    handle_connection {H = ℕ} read_no read_no 0
      (λ c s. returned tt)
      (of_two 1 2)
      of_other
      (pending_task 0)
      (after_cancels 0 (returned tt) [])
    ≡ (some (raised value_error), 1)
unfolding call_handler parse_name
handle_connection-ends_test =
    handle_connection-ends {H = ℕ} read_no read_no 0 0 (λ c s. returned tt) (of_two 1 2) of_other
