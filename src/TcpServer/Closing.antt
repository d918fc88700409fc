-- ===== src/TcpServer/Closing.antt =====
-- How a server of src/aiodrive/modules/tcp.py and its connections end.
-- When the server's block has ended, however it did, and the suspension after it is not cancelled:
-- the server stops accepting, then its handlers are joined, and then it waits until it is closed.
-- With `k` cancellations during the last wait, the outcome is that of the task group of the
-- handlers, but for a `CancelledError` if one of them was shielded.
use aiodrive.Prelude.{
  ltb, ◌==◌, if◌then◌else◌, ℕ, ◌≡◌, refl, ap, ◌&&◌, Option, none, some, List, [], ◌∷◌,
}
use aiodrive.Asyncio.{cancelled_error, group, Exns, end, more, Outcome, returned, raised, Task}
use aiodrive.Cancel.{volatile_task_group}
use aiodrive.Shield.{Event}
use aiodrive.Shield.Waiting.{after_cancels, pending_task, cleaned_up-after_cancels}
use aiodrive.DaemonHandle.{Generator}
use aiodrive.TcpServer.{
  SocketName, PeerName, call_handler, handle_connection, suspends, closes_server, joins_handlers,
  waits_closed, close_server, listen_end,
}

pub listen_end-closes :
    (initial final k : ℕ) (errors : Exns) (body : Outcome (Unit {0}))
    → listen_end initial final errors
        (returned tt)
        body
        (pending_task 0)
        (after_cancels k (returned tt) [])
      ≡ (
        some (
            if ltb 0 k && initial == 0
            then raised cancelled_error
            else volatile_task_group initial final errors body),
        suspends ∷ closes_server ∷ joins_handlers ∷ waits_closed ∷ [],
      )
unfolding listen_end close_server
listen_end-closes initial final k errors (returned u) =
    ap (λ o. (o, suspends ∷ closes_server ∷ joins_handlers ∷ waits_closed ∷ []))
      (cleaned_up-after_cancels initial k (volatile_task_group initial final errors (returned u))
        (returned tt)).1
listen_end-closes initial final k errors (raised e) =
    ap (λ o. (o, suspends ∷ closes_server ∷ joins_handlers ∷ waits_closed ∷ []))
      (cleaned_up-after_cancels initial k (volatile_task_group initial final errors (raised e))
        (returned tt)).1

-- A cancellation at that suspension skips the call of `server.close`, and the server, which still
-- accepts, is then awaited.
pub listen_end_unclosed :
    (initial final : ℕ) (errors : Exns) (body : Outcome (Unit {0})) (t : Task (Unit {0}))
    (es : List (Event (Unit {0})))
    → (listen_end initial final errors (raised cancelled_error) body t es).1
      ≡ suspends ∷ joins_handlers ∷ waits_closed ∷ []
unfolding listen_end close_server
listen_end_unclosed initial final errors (returned u) t es = refl
listen_end_unclosed initial final errors (raised e) t es = refl

-- The generator of `listen`: it yields the server, and its second step ends as `o`.
abbrev pub listening : {A : Type 0} → A → Option (Outcome (Unit {0})) → Generator A
listening server o = record {
  items =
      returned server
      ∷ elim o [ none ↦ [] | some r ↦ elim r [ returned u ↦ [] | raised e ↦ raised e ∷ [] ] ];
  closing = returned tt;
}

-- What the task group of the handlers raises.
abbrev pub of_handlers : Exns → Outcome (Unit {0})
of_handlers end = returned tt
of_handlers (more e es) = raised (group (more e es))

module _ {H V4 V6 : Type 0} (read4 : H → Outcome V4) (read6 : H → Outcome V6) where
  -- A connection's writer is closed and awaited however its handler ends, also when a name cannot be
  -- read; with `k` cancellations during that wait, the outcome is the handler's, or what the name
  -- raised, but for a `CancelledError` if one of them was shielded.
  pub handle_connection-ends :
      (initial k : ℕ) (handler : SocketName V4 V6 → SocketName V4 V6 → Outcome (Unit {0}))
      (peername sockname : PeerName H)
      → handle_connection read4 read6 initial handler peername sockname
          (pending_task 0)
          (after_cancels k (returned tt) [])
        ≡ (
          some (
              if ltb 0 k && initial == 0
              then raised cancelled_error
              else call_handler read4 read6 handler peername sockname),
          1,
        )
  unfolding handle_connection
  handle_connection-ends initial k handler peername sockname =
      ap (λ o. (o, 1))
        (cleaned_up-after_cancels initial k (call_handler read4 read6 handler peername sockname)
          (returned tt)).1
