-- ===== src/DecentralizedPeer/Config/Linked.antt =====
-- The neighbours that a peer of src/decentralized_peer.cpp reads from the files of config/.
use cs550_pa.Prelude.{
  ℕ, ◌%◌, ◌^◌, ◌<◌, ◌≡◌, ◌↔◌, refl, arith, true, some, List, [], ◌∷◌, map, Bool-cases, inl, inr,
}
use cs550_pa.Comms.{Conn}
use cs550_pa.DecentralizedPeer.{Peer, has_file}
use cs550_pa.FileIndex.{same_name}
use cs550_pa.FileIndex.Lookup.{same_name_iff}
use cs550_pa.Text.Lines.{All, print_lines}
use cs550_pa.DecentralizedPeer.Config.{Inet, Entry, regular_names, init_fileset, new_peer}
use cs550_pa.DecentralizedPeer.Config.Read.{
  Row, Host, print_row, print_host, IsRow, IsHost, neighbor_ids, linked, init_neighbors-linked,
}

-- A directory has a regular file of a name.
pub data HasRegular (name : List ℕ) : List Entry → Type 0 where
  first_entry :
      (e : Entry) (es : List Entry)
      → e.d_name ≡ name
      → e.is_regular ≡ true
      → HasRegular name (e ∷ es)
  later_entry : (e : Entry) (es : List Entry) → HasRegular name es → HasRegular name (e ∷ es)

has_file-HasRegular :
    (name : List ℕ) (es : List Entry) → has_file name (regular_names es) ≡ true → HasRegular name es
unfolding regular_names has_file
has_file-HasRegular name [] h = cc
has_file-HasRegular name (e ∷ es) h = elim (Bool-cases e.is_regular) [
  | inr other ↦ later_entry e es (has_file-HasRegular name es (rw other at h))
  | inl regular ↦ elim (Bool-cases (same_name e.d_name name)) [
    | inl same ↦ first_entry e es ((same_name_iff e.d_name name).0 same) regular
    | inr different ↦ later_entry e es (has_file-HasRegular name es (rw (regular, different) at h))
  ]
]

HasRegular-has_file :
    (name : List ℕ) {es : List Entry} → HasRegular name es → has_file name (regular_names es) ≡ true
unfolding regular_names has_file
HasRegular-has_file name (first_entry e es same regular) =
    rw (regular, (same_name_iff e.d_name name).1 same) refl
HasRegular-has_file name (later_entry e es h) = elim (Bool-cases e.is_regular) [
  | inr other ↦ rw other (HasRegular-has_file name h)
  | inl regular ↦ elim (Bool-cases (same_name e.d_name name)) [
    | inl same ↦ rw (regular, same) refl
    | inr different ↦ rw (regular, different) (HasRegular-has_file name h)
  ]
]

-- What a peer is to be once it is created.
pub record Created (inet : Inet) (peer : ℕ) (rows : List Row) (hosts : List Host) (es : List Entry)
    (p : Peer) : Type 0 where
  pub same_id : p.peer_id ≡ peer
  pub links : p.neighbors ≡ linked inet (neighbor_ids peer rows) hosts
  pub files : (name : List ℕ) → (has_file name p.file_set ≡ true) ↔ HasRegular name es
  pub no_queries : p.received_queries ≡ []

-- A peer whose server starts is created, whatever is in its message count: its neighbours are the
-- connections at the fixed port of the hosts that its rows of the topology list, with what `inet_addr`
-- makes of all that is behind the first comma of their line, and its files are the regular files of the
-- directory. The topology file has a line `id:neighbour,neighbour` for each row and the address file
-- a line `id,address` for each host, the ids are below 2^31, and the addresses have no newline.
pub new_peer-Created :
    (inet : Inet) (peer : ℕ) (rows : List Row) (hosts : List Host) (es : List Entry) (home : Conn)
    (count : ℕ)
    → peer < 2 ^ 8
    → All IsRow rows
    → All IsHost hosts
    → (p : Peer) × (new_peer inet peer
          (print_lines (map print_row rows))
          (print_lines (map print_host hosts))
          (some es)
          home
          true
          count
        ≡ some p)
      × Created inet peer rows hosts es p
unfolding new_peer init_fileset
new_peer-Created inet peer rows hosts es home count b h k =
    let byte : peer % 2 ^ 8 ≡ peer = omega arith in
    let made : Peer = record {
      peer_id = peer;
      message_count = count;
      file_set = regular_names es;
      received_queries = [];
      neighbors = linked inet (neighbor_ids peer rows) hosts;
      home = home;
    } in
    (
      made,
      rw (byte, init_neighbors-linked inet peer rows hosts h k) refl,
      record {
        same_id = refl;
        links = refl;
        files = λ name. (has_file-HasRegular name es, HasRegular-has_file name);
        no_queries = refl;
      },
    )
