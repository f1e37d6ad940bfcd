-- ===== src/Sockets/Loop.antt =====
-- src/server.cpp: the loop that accepts connections, the jobs that serve them, and the end of a server.
use cs550_pa.Prelude.{
  ℕ, Bool, true, false, not, if◌then◌else◌, Option, List, [], ◌∷◌, ◌++◌, ℤ, pos, negsuc, eq_ℤ,
  is_negative,
}
use cs550_pa.Comms.{Conn, Msg, Outcome, done, failed, fault, running}
use cs550_pa.Sockets.{
  Table, servinitco_conn, servlstn_conn, Poll, Accepted, servacpt_conn, close_conn,
}

-- The open descriptors, and the clients whose jobs have been queued and have not ended.
pub record Serving : Type 0 where
  pub table : Table
  pub clients : List Conn

-- What the body of `server_loop` does with a connection: no client, or a job for it.
abbrev pub queue_client : Conn × Table → List Conn → Serving
queue_client (client, table) clients =
    if eq_ℤ client.addr (negsuc 0)
    then record { table = table; clients = clients }
    else record { table = table; clients = clients ++ client ∷ [] }

unfoldable pub loop_turn : List Poll → Accepted → Serving → Outcome Serving
loop_turn polls accepted s = elim (servacpt_conn polls accepted s.table) [
  | done r ↦ done (queue_client r s.clients)
  | failed ↦ failed
  | fault ↦ fault
  | running ↦ running
]

-- A turn of the loop: the interrupt at its beginning, and what `poll` and `accept` come to.
pub record Turn : Type 0 where
  pub interrupt : Bool
  pub polls : List Poll
  pub accepted : Accepted

-- `server_loop`, over the turns that the time brings; it has not returned when they are used up.
unfoldable pub server_loop : List Turn → Serving → Outcome Serving
server_loop [] s = running
server_loop (t ∷ turns) s = elim t.interrupt [
  | true ↦ done s
  | false ↦ elim (loop_turn t.polls t.accepted s) [
    | done s' ↦ server_loop turns s'
    | failed ↦ failed
    | fault ↦ fault
    | running ↦ running
  ]
]

-- `connection_handler`, with what `recv_msg` returns and what the handler does to the state of the
-- program: that state, the message that is deleted, and the open descriptors.
unfoldable pub connection_handler {ℓ} :
    {S : Type ℓ} → (Conn → Msg) → (Conn → Msg → S → S) → Conn → S → Table → S × Msg × Table
connection_handler recv_msg message_handler client s table =
    let message = recv_msg client in
    let s' = message_handler client message s in
    let (gone, table') = close_conn client table in (s', message, table')

-- `start`, with the descriptor that it is given and whether `bind` and `listen` succeed: the result, the
-- connection of the server, and the open descriptors. A server that is bound and listens runs its loop.
unfoldable pub start_on : Option ℕ → Bool → Bool → Conn → Table → ℤ × Conn × Table
start_on new binds listens local_server table =
    if eq_ℤ local_server.addr (negsuc 0)
    then (negsuc 0, local_server, table)
    else (let (bound, conn, table') = servinitco_conn new binds local_server table in
        if is_negative bound
        then (negsuc 0, conn, table')
        else if not (eq_ℤ (servlstn_conn listens) (pos 0))
        then (negsuc 0, conn, table')
        else (pos 0, conn, table'))

-- The destructor: the connection of the server, the interrupt, and the open descriptors.
unfoldable pub shut_down : Conn → Table → Conn × Bool × Table
shut_down local_server table =
    let (gone, table') = close_conn local_server table in (gone, true, table')
