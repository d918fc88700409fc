-- ===== src/TcpServer.antt =====
-- src/aiodrive/modules/tcp.py: names of sockets, one connection, and the server, from the end of its
-- block on. The addresses of `ipaddress` are parameters: how they are read and how they are written.
pub mod Closing
mod Tests
use aiodrive.Prelude.{ℕ, Option, List, [], ◌∷◌, ◌++◌}
use aiodrive.Asyncio.{value_error, Exns, Outcome, returned, raised, Task}
use aiodrive.Cancel.{Count, volatile_task_group}
use aiodrive.Shield.{Event, cleaned_up}

pub data Address (V4 V6 : Type 0) : Type 0 where
  ipv4_address : V4 → Address V4 V6
  ipv6_address : V6 → Address V4 V6

pub record SocketName (V4 V6 : Type 0) : Type 0 where
  pub address : Address V4 V6
  pub port : ℕ

-- The name that a socket gives itself: a tuple of two, of four, or another one.
pub data PeerName (H : Type 0) : Type 0 where
  of_two : H → ℕ → PeerName H
  of_four : H → ℕ → ℕ → ℕ → PeerName H
  of_other : PeerName H

module _ {H V4 V6 : Type 0} (read4 : H → Outcome V4) (read6 : H → Outcome V6) where
  -- `SocketName.parse`.
  unfoldable pub parse_name : PeerName H → Outcome (SocketName V4 V6)
  parse_name (of_two host port) = elim (read4 host) [
    | returned a ↦ returned (record { address = ipv4_address a; port = port })
    | raised e ↦ raised e
  ]
  parse_name (of_four host port flowinfo scopeid) = elim (read6 host) [
    | returned a ↦ returned (record { address = ipv6_address a; port = port })
    | raised e ↦ raised e
  ]
  parse_name of_other = raised value_error

  -- The body of the `try` statement of `handle_connection_async`.
  unfoldable pub call_handler :
      (SocketName V4 V6 → SocketName V4 V6 → Outcome (Unit {0}))
      → PeerName H
      → PeerName H
      → Outcome (Unit {0})
  unfolding parse_name
  call_handler handler peername sockname = elim (parse_name peername) [
    | raised e ↦ raised e
    | returned client_name ↦ elim (parse_name sockname) [
      | raised e ↦ raised e
      | returned server_name ↦ handler client_name server_name
    ]
  ]

  -- `handle_connection_async`: what it comes to, `none` while it waits for the writer, and how often
  -- `writer.close` has been called. `t` is the task of `writer.wait_closed()`.
  unfoldable pub handle_connection :
      Count
      → (SocketName V4 V6 → SocketName V4 V6 → Outcome (Unit {0}))
      → PeerName H
      → PeerName H
      → Task (Unit {0})
      → List (Event (Unit {0}))
      → Option (Outcome (Unit {0})) × ℕ
  unfolding call_handler cleaned_up
  handle_connection initial_count handler peername sockname t es =
      (cleaned_up initial_count (call_handler handler peername sockname) t es, 1)

-- What `listen` does after its block, in order.
pub data Deed : Type 0 where
  suspends closes_server joins_handlers waits_closed : Deed

-- The inner `finally` clause: `suspend`, which ends as `pause` says, and `server.close`.
unfoldable pub close_server :
    Outcome (Unit {0}) → Outcome (Unit {0}) → Outcome (Unit {0}) × List Deed
close_server pause (returned u) = elim pause [
  | returned _ ↦ (returned u, suspends ∷ closes_server ∷ [])
  | raised e ↦ (raised e, suspends ∷ [])
]
close_server pause (raised x) = elim pause [
  | returned _ ↦ (raised x, suspends ∷ closes_server ∷ [])
  | raised e ↦ (raised e, suspends ∷ [])
]

-- `listen` once its block has ended as `body`: the task group, whose handlers raised `errors`, from
-- the cancellation counts at its start and end, and the outer `finally` clause, where `t` is the
-- task of `server.wait_closed()`. The result is `none` while that is awaited.
unfoldable pub listen_end :
    Count
    → Count
    → Exns
    → Outcome (Unit {0})
    → Outcome (Unit {0})
    → Task (Unit {0})
    → List (Event (Unit {0}))
    → Option (Outcome (Unit {0})) × List Deed
unfolding close_server volatile_task_group cleaned_up
listen_end initial final errors pause body t es =
    let (o, deeds) = close_server pause body in
    (
      cleaned_up initial (volatile_task_group initial final errors o) t es,
      deeds ++ joins_handlers ∷ waits_closed ∷ [],
    )
