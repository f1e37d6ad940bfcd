-- ===== src/FileIndex.antt =====
-- src/file_index.cpp: which peers have registered which file. Each method runs under the lock of the
-- index, so it is one step.
pub mod Lookup
pub mod Refines
mod Tests
use cs550_pa.Prelude.{
  ℕ, zero, suc, ◌+◌, ◌%◌, Bool, true, false, ◌&&◌, ◌==◌, eq_ℤ, if◌then◌else◌, Option, none, some,
  List, [], ◌∷◌, ◌++◌, length, get_elem?,
}
use cs550_pa.Comms.{Conn, no_conn}

-- Equality of file names.
abbrev pub same_name : List ℕ → List ℕ → Bool
same_name [] [] = true
same_name (a ∷ as') (b ∷ bs) = a == b && same_name as' bs
same_name _ _ = false

-- `file_peer_map`: the entries of the hash map in any order.
abbrev pub PeerMap : Type 0
PeerMap = List (List ℕ × List Conn)

pub record FileIndex : Type 0 where
  pub file_peer_map : PeerMap
  pub replication_factor : ℕ

abbrev pub init : FileIndex
init = record { file_peer_map = []; replication_factor = 1 }

unfoldable pub find : List ℕ → PeerMap → Option (List Conn)
find filename [] = none
find filename ((name, peers) ∷ entries) =
    if same_name name filename then some peers else find filename entries

-- `file_peer_map[filename].push_back(peer)` on the entry that is there.
unfoldable pub push_peer : List ℕ → Conn → PeerMap → PeerMap
push_peer filename peer [] = []
push_peer filename peer ((name, peers) ∷ entries) =
    if same_name name filename
    then (name, peers ++ peer ∷ []) ∷ entries
    else (name, peers) ∷ push_peer filename peer entries

unfoldable pub count_peers : List ℕ → FileIndex → ℕ
unfolding find
count_peers filename index = elim (find filename index.file_peer_map) [
  | none ↦ 0
  | some peers ↦ length peers
]

-- The number of peers that have the file afterwards, and the new index.
unfoldable pub add_peer : List ℕ → Conn → FileIndex → ℕ × FileIndex
unfolding push_peer count_peers
add_peer filename peer index =
    let pushed = record index { file_peer_map = push_peer filename peer index.file_peer_map } in
    elim (find filename index.file_peer_map) [
      | none ↦ (1, record index { file_peer_map = (filename, peer ∷ []) ∷ index.file_peer_map })
      | some peers ↦ (count_peers filename pushed, pushed)
    ]

-- `at` throws for an index past the end.
unfoldable pub get_rand_peer : ℕ → List ℕ → FileIndex → Option Conn
unfolding find
get_rand_peer rand filename index = elim (find filename index.file_peer_map) [
  | none ↦ some no_conn
  | some peers ↦ get_elem? peers (rand % length peers)
]

-- The comparison takes the socket descriptors in.
abbrev pub same_conn : Conn → Conn → Bool
same_conn p peer = eq_ℤ p.addr peer.addr && (eq_ℤ p.port peer.port && eq_ℤ p.sock peer.sock)

unfoldable pub any_same : List Conn → Conn → Bool
any_same [] peer = false
any_same (p ∷ peers) peer = if same_conn p peer then true else any_same peers peer

unfoldable pub contains_peer : List ℕ → Conn → FileIndex → Bool
unfolding find any_same
contains_peer filename peer index = elim (find filename index.file_peer_map) [
  | none ↦ false
  | some peers ↦ any_same peers peer
]
