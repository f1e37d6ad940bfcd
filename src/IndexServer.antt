-- ===== src/IndexServer.antt =====
-- src/index_server.cpp: the state of the index server, and the choice of peers to replicate to.
pub mod Circle
pub mod Replication
pub mod Handlers
pub mod History
mod Tests
use cs550_pa.Prelude.{
  ℕ, zero, suc, ◌+◌, ◌-◌, ◌%◌, Bool, true, false, not, ◌==◌, ltb, if◌then◌else◌, Option, none, some,
  List, [], map, eq_ℤ, negsuc, ◌∷◌, ◌++◌, length, get_elem?,
}
use cs550_pa.Comms
use cs550_pa.Comms.{
  Conn, Msg, Malloc, new_user, replication_req, search_index, status_bad, status_ok,
}
use cs550_pa.Messages.{
  create_status, create_conn, create_str_conn, parse_conn, parse_str, parse_str_conn, ◌>>=◌,
}
use cs550_pa.FileIndex.{FileIndex, contains_peer, add_peer, get_rand_peer}

-- `peers` and `file_index`.
pub record Index : Type 0 where
  pub peers : List Conn
  pub file_index : FileIndex

-- Where the inner loop of `find_replication_peers` stops: the last peer that it tried, whether that
-- one lacks the file, the next index, and whether every peer has been tried.
pub record Tried : Type 0 where
  pub valid_peer : Conn
  pub is_valid : Bool
  pub peer_idx : ℕ
  pub all_tried : Bool

-- The loops over `peers`, from `start_idx` on, with the test that a peer lacks the file.
module _ (peers : List Conn) (start_idx : ℕ) (lacks : Conn → Bool) where
  -- `do … while(!is_valid)`. `none`: `at` throws, or the fuel is used up.
  unfoldable pub try_peers : ℕ → ℕ → Option Tried
  try_peers zero idx = none
  try_peers (suc fuel) idx =
      let next = (idx + 1) % length peers in
      let again = try_peers fuel next in
      elim (get_elem? peers idx) [
        | none ↦ none
        | some peer ↦
            if next == start_idx
            then some (record {
              valid_peer = peer;
              is_valid = lacks peer;
              peer_idx = next;
              all_tried = true;
            })
            else if lacks peer
            then some
                (record { valid_peer = peer; is_valid = true; peer_idx = next; all_tried = false })
            else again
      ]

  abbrev pub push_valid : Tried → List Conn → List Conn
  push_valid t rest = if t.is_valid then t.valid_peer ∷ rest else rest

  -- `for (i = 0; i < num_peers; i++)`, on the rounds that are left.
  unfoldable pub collect : ℕ → ℕ → Option (List Conn)
  collect zero idx = some []
  collect (suc rounds) idx =
      let more = λ (i : ℕ). collect rounds i in
      elim (try_peers (length peers) idx) [
        | none ↦ none
        | some t ↦
            if t.all_tried
            then some (push_valid t [])
            else elim (more t.peer_idx) [ none ↦ none | some rest ↦ some (push_valid t rest) ]
      ]

-- `find_replication_peers`, with the value of `rand`.
unfoldable pub find_replication_peers : ℕ → List ℕ → ℕ → Index → Option (List Conn)
find_replication_peers rand filename num_peers index =
    let n = length index.peers in
    if n == 0
    then some []
    else collect index.peers (rand % n) (λ peer. not (contains_peer filename peer index.file_index))
        num_peers (rand % n)

-- What a handler sends: an answer on the connection that the request came by, or a message on a new
-- connection to a peer.
pub data Effect : Type 0 where
  answer : Msg → Effect
  send_to : Conn → Msg → Effect

-- The state after a request, and what was sent. `none`: the handler crashes.
abbrev pub Step : Type 0
Step = Option (Index × List Effect)

-- What each handler finds on its stack and in the C library: `malloc`, the value of `rand`, and the
-- connection whose socket `parse_message` leaves as it is.
pub record Host : Type 0 where
  pub malloc : Malloc
  pub rand : ℕ
  pub junk : Conn

unfoldable pub register_user : Host → Msg → Index → Step
register_user host request index = do
  peer ← parse_conn request host.junk
  some (record index { peers = index.peers ++ peer ∷ [] }, [])

-- `request_replication`: one message, sent to every peer that was found.
unfoldable pub request_replication : Host → Conn → List ℕ → ℕ → Index → Option (List Effect)
request_replication host peer_with_file filename replications_left index = do
  valid_peers ← find_replication_peers host.rand filename replications_left index
  request ← create_str_conn host.malloc filename peer_with_file replication_req
  some (map (λ peer. send_to peer request) valid_peers)

-- `register_file` once the index has the peer.
unfoldable pub replicate_more : Host → Conn → List ℕ → ℕ → Index → Step
replicate_more host peer filename num_peers index =
    let factor = index.file_index.replication_factor in
    if ltb num_peers factor
    then (do
      sent ← request_replication host peer filename (factor - num_peers) index
      some (index, sent))
    else some (index, [])

unfoldable pub register_file : Host → Msg → Index → Step
register_file host request index = do
  (filename, peer) ← parse_str_conn request host.junk
  let added = add_peer filename peer index.file_index
  replicate_more host peer filename added.0 (record index { file_index = added.1 })

-- The answer to a search: the connection that was found, or a bare status.
unfoldable pub answer_to : Host → Conn → Option Msg
answer_to host peer =
    if eq_ℤ peer.addr (negsuc 0)
    then create_status host.malloc status_bad
    else create_conn host.malloc peer status_ok

unfoldable pub search_file : Host → Msg → Index → Step
search_file host request index = do
  filename ← parse_str request
  peer ← get_rand_peer host.rand filename index.file_index
  response ← answer_to host peer
  some (index, answer response ∷ [])

-- `message_handler`: a message of another type is only reported.
unfoldable pub message_handler : Host → Msg → Index → Step
message_handler host request index =
    if eq_ℤ request.type new_user
    then register_user host request index
    else if eq_ℤ request.type Comms.register_file
    then register_file host request index
    else if eq_ℤ request.type search_index
    then search_file host request index
    else some (index, [])
