-- ===== src/DecentralizedPeer/Config.antt =====
-- How a peer of src/decentralized_peer.cpp learns its neighbours and its files when it is created.
pub mod Read
pub mod Linked
mod Tests
use cs550_pa.Prelude.{
  ℕ, zero, suc, ◌+◌, ◌%◌, ◌^◌, Bool, true, false, not, if◌then◌else◌, Option, none, some, List, [],
  ◌∷◌, ◌++◌, map, ℤ, pos, negsuc, eq_ℤ,
}
use cs550_pa.Comms.{Conn}
use cs550_pa.Messages.{◌>>=◌}
use cs550_pa.DecentralizedPeer.{Peer, fixed_port}
use cs550_pa.Text.{newline, comma, colon, split, before, behind, after, stoi}

-- `inet_addr`, a parameter, and what the socket of a connection happens to be that is not set.
pub record Inet : Type 0 where
  pub inet_addr : List ℕ → ℤ
  pub junk : ℤ

-- The numbers of a list with commas; `none` where `stoi` throws.
unfoldable pub read_ids : List (List ℕ) → Option (List ℤ)
read_ids [] = some []
read_ids (temp ∷ temps) = do id ← stoi temp; ids ← read_ids temps; some (id ∷ ids)

-- The first loop: the neighbours of every line that starts with the id of the peer.
unfoldable pub read_adjacency : ℤ → List (List ℕ) → Option (List ℤ)
read_adjacency peer_id [] = some []
read_adjacency peer_id (line ∷ lines) = do
  id ← stoi (before comma line)
  here ← (if eq_ℤ id peer_id then read_ids (split comma (after colon line)) else some [])
  later ← read_adjacency peer_id lines
  some (here ++ later)

unfoldable pub has_id : ℤ → List ℤ → Bool
has_id id [] = false
has_id id (n ∷ ns) = if eq_ℤ n id then true else has_id id ns

abbrev pub neighbor_at : Inet → List ℕ → Conn
neighbor_at inet ip = record { addr = inet.inet_addr ip; port = fixed_port; sock = inet.junk }

-- What a line of the second loop adds to the neighbours.
unfoldable pub read_host : Inet → List ℤ → List ℕ → Option (List Conn)
read_host inet nebvec line = elim (behind comma line) [
  | none ↦ some []
  | some ip ↦ (do
    id ← stoi (before comma line)
    some (if has_id id nebvec then neighbor_at inet ip ∷ [] else []))
]

unfoldable pub read_hosts : Inet → List ℤ → List (List ℕ) → Option (List Conn)
read_hosts inet nebvec [] = some []
read_hosts inet nebvec (line ∷ lines) = do
  here ← read_host inet nebvec line
  later ← read_hosts inet nebvec lines
  some (here ++ later)

-- `init_neighbors`, with the contents of the two files; one that cannot be opened reads as empty.
unfoldable pub init_neighbors : Inet → ℤ → List ℕ → List ℕ → Option (List Conn)
init_neighbors inet peer_id adjfile pipfile = do
  nebvec ← read_adjacency peer_id (split newline adjfile)
  read_hosts inet nebvec (split newline pipfile)

-- An entry of a directory: its name, and whether it is a regular file.
pub record Entry : Type 0 where
  pub d_name : List ℕ
  pub is_regular : Bool

unfoldable pub regular_names : List Entry → List (List ℕ)
regular_names [] = []
regular_names (entry ∷ entries) =
    if entry.is_regular then entry.d_name ∷ regular_names entries else regular_names entries

-- `init_fileset`, with what `opendir` and `readdir` give.
unfoldable pub init_fileset : Option (List Entry) → List (List ℕ)
init_fileset none = []
init_fileset (some entries) = regular_names entries

-- The constructor, with the connection of the server, whether it starts, and what happens to be in the
-- message count, which is not set. `none` is an exception.
unfoldable pub new_peer :
    Inet → ℕ → List ℕ → List ℕ → Option (List Entry) → Conn → Bool → ℕ → Option Peer
new_peer inet peer_id adjfile pipfile dir home starts count = do
  neighbors ← init_neighbors inet (pos (peer_id % 2 ^ 8)) adjfile pipfile
  (if starts
      then some (record {
        peer_id = peer_id % 2 ^ 8;
        message_count = count;
        file_set = init_fileset dir;
        received_queries = [];
        neighbors = neighbors;
        home = home;
      })
      else none)
