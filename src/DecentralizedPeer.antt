-- ===== src/DecentralizedPeer.antt =====
-- src/decentralized_peer.cpp: a peer that passes queries for files on to its neighbours.
pub mod Ids
pub mod Queries
pub mod Stores
pub mod Replies
pub mod Broadcast
pub mod Alone
pub mod Config
mod Tests
use cs550_pa.Prelude.{
  ℕ, zero, suc, ◌+◌, ◌*◌, ◌%◌, ◌^◌, Bool, true, false, if◌then◌else◌, Option, none, some, List, [],
  ◌∷◌, map, ℤ, pos, negsuc, eq_ℤ, bits_int,
}
use cs550_pa.Comms.{
  Conn, no_conn, Msg, Malloc, Files, createfile_msg, Outcome, done, failed, fault, running,
  search_index, request_file, status_ok, status_bad, dup_request,
}
use cs550_pa.Messages.{
  ◌>>=◌, create_str, create_id_conn, create_id_str, parse_id_conn, parse_id_str,
}
use cs550_pa.FileIndex.{same_name}
use cs550_pa.CentralizedPeer.{file_path, file_status}

pub record Peer : Type 0 where
  pub peer_id : ℕ
  pub message_count : ℕ
  pub file_set : List (List ℕ)
  pub received_queries : List (ℤ × Conn)
  pub neighbors : List Conn
  pub home : Conn

-- A store to a field of the message that the threads of a broadcast share.
pub data Store : Type 0 where
  put_buf : List ℕ → Store
  put_size : ℕ → Store
  put_type : ℤ → Store

-- What a peer runs on: `malloc`, the reply of `send_and_recv` at a connection, its files, the order in
-- which the stores of the threads of a broadcast, which take no lock, happen, and the connection whose socket `parse_message` leaves as
-- it is.
pub record World : Type 0 where
  pub malloc : Malloc
  pub ask : Conn → Msg → Msg
  pub files : Files
  pub finish : List (List Store) → List Store
  pub junk : Conn

-- An unsigned sum, returned as an `int`.
unfoldable pub get_message_id : Peer → ℤ × Peer
get_message_id peer =
    let count = (peer.message_count + 1) % 2 ^ 32 in
    (bits_int ((count + peer.peer_id * 2 ^ 24) % 2 ^ 32), record peer { message_count = count })

-- Every neighbour but those at the address of the sender.
unfoldable pub others : Conn → List Conn → List Conn
others sender [] = []
others sender (neighbor ∷ neighbors) =
    if eq_ℤ neighbor.addr sender.addr
    then others sender neighbors
    else neighbor ∷ others sender neighbors

-- The stores of a thread: none if its neighbour has replied with a DUP_REQUEST.
unfoldable pub stores : Msg → List Store
stores response =
    if eq_ℤ response.type dup_request
    then []
    else put_buf response.buf ∷ put_size response.size ∷ put_type response.type ∷ []

-- `query_response` after so many stores.
unfoldable pub settle : Msg → List Store → Msg
settle query_response [] = query_response
settle query_response (put_buf b ∷ later) = settle (record query_response { buf = b }) later
settle query_response (put_size n ∷ later) = settle (record query_response { size = n }) later
settle query_response (put_type t ∷ later) = settle (record query_response { type = t }) later

abbrev pub bare : ℤ → Msg
bare type = record { buf = []; size = 0; type = type }

unfoldable pub broadcast_query : World → Conn → Msg → Peer → Msg
broadcast_query w sender message peer =
    settle (bare dup_request)
      (w.finish (map (λ neighbor. stores (w.ask neighbor message)) (others sender peer.neighbors)))

unfoldable pub has_file : List ℕ → List (List ℕ) → Bool
has_file filename [] = false
has_file filename (name ∷ names) = if same_name name filename then true else has_file filename names

unfoldable pub has_seen : ℤ → List (ℤ × Conn) → Bool
has_seen id [] = false
has_seen id ((seen, from) ∷ queries) = if eq_ℤ seen id then true else has_seen id queries

-- FIXED_PORT
abbrev pub fixed_port : ℤ
fixed_port = pos 8000

unfoldable pub remember : ℤ → Conn → Peer → Peer
remember id from peer =
    if has_seen id peer.received_queries
    then peer
    else record peer { received_queries = (id, from) ∷ peer.received_queries }

-- The answer to a query that has not been seen before.
unfoldable pub answer_query : World → Conn → Msg → ℤ → List ℕ → Peer → Option Msg
answer_query w client request id filename peer =
    if has_file filename peer.file_set
    then create_id_conn w.malloc id peer.home status_ok
    else some (broadcast_query w client request peer)

-- `search_index` once the request is parsed. The client is remembered with the fixed port.
unfoldable pub answer_once : World → Conn → Msg → ℤ → List ℕ → Peer → Option (Peer × Msg)
answer_once w client request id filename peer =
    if has_seen id peer.received_queries then some (peer, bare dup_request) else (do
      response ← answer_query w client request id filename peer
      some (
        remember id (record { addr = client.addr; port = fixed_port; sock = pos 0 }) peer,
        response,
      ))

-- `search_index`: the new state, and the message that the client is sent. `none` is a crash.
unfoldable pub answer_search : World → Conn → Msg → Peer → Option (Peer × Msg)
answer_search w client request peer = do
  (id, filename) ← parse_id_str request
  answer_once w client request id filename peer

-- What `search_for_file` makes of the response to its broadcast.
unfoldable pub read_response : World → Msg → Option Conn
read_response w response =
    if eq_ℤ response.type status_ok
    then (do (id, conn) ← parse_id_conn response w.junk; some conn)
    else some no_conn

-- `search_for_file` for a file that is not here.
unfoldable pub search_neighbors : World → List ℕ → Peer → Option (Peer × Conn)
search_neighbors w filename peer =
    let issued = get_message_id peer in
    (do
      request ← create_id_str w.malloc issued.0 filename search_index
      conn ← read_response w (broadcast_query w peer.home request issued.1)
      some (remember issued.0 peer.home issued.1, conn))

unfoldable pub search_for_file : World → List ℕ → Peer → Option (Peer × Conn)
search_for_file w filename peer =
    if has_file filename peer.file_set
    then some (peer, peer.home)
    else search_neighbors w filename peer

-- `request_file` once the search has an end.
unfoldable pub request_from : World → List ℕ → Conn → Option ℤ
request_from w filename source = if eq_ℤ source.addr (negsuc 0) then some (negsuc 0) else (do
  request ← create_str w.malloc filename request_file
  some (file_status (w.ask source request)))

-- `request_file`: 0, or -1 for a file that was not found or not sent.
unfoldable pub fetch : World → List ℕ → Peer → Option (Peer × ℤ)
fetch w filename peer = do
  (peer', source) ← search_for_file w filename peer
  status ← request_from w filename source
  some (peer', status)

-- `send_file`: the message that it sends to the client. The path is made as in src/centralized_peer.cpp.
unfoldable pub send_file : World → Msg → Outcome Msg
send_file w request = elim (file_path request) [
  | failed ↦ failed
  | fault ↦ fault
  | running ↦ running
  | done path ↦ elim (createfile_msg w.files path) [
    | done response ↦ done response
    | failed ↦ done (bare status_bad)
    | fault ↦ fault
    | running ↦ running
  ]
]

-- What `message_handler` does with a message: it answers a query, sends a file, or only reports.
pub data Reaction : Type 0 where
  searched : Option (Peer × Msg) → Reaction
  sent : Outcome Msg → Reaction
  unknown : Reaction

unfoldable pub message_handler : World → Conn → Msg → Peer → Reaction
message_handler w client request peer =
    if eq_ℤ request.type search_index
    then searched (answer_search w client request peer)
    else if eq_ℤ request.type request_file
    then sent (send_file w request)
    else unknown
