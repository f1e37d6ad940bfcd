-- ===== src/FileIndex/Tests.antt =====
-- Runs of the model of src/file_index.cpp.
use mathlib.Core.List.{Memᴰ}
use cs550_pa.Prelude.{ℕ, ◌≡◌, ◌↔◌, true, List, [], ◌∷◌, pos}
use cs550_pa.Comms.{Conn}
use cs550_pa.FileIndex
use cs550_pa.FileIndex.{FileIndex, same_name, add_peer, count_peers, get_rand_peer, contains_peer}
use cs550_pa.FileIndex.Refines.{
  add, count, rand_peer, calls, promises, nothing_registered, calls-promises,
}
use cs550_pa.FileIndex.Lookup.{
  peers_of, contains_peer_iff, IsPopulated, init-IsPopulated, add_peer-IsPopulated,
}

abbrev p1 : Conn
p1 = record { addr = pos 1; port = pos 8000; sock = pos 4 }

abbrev p2 : Conn
p2 = record { addr = pos 2; port = pos 8000; sock = pos 4 }

abbrev name : List ℕ
name = b'f' ∷ []

abbrev other : List ℕ
other = b'g' ∷ []

abbrev one : FileIndex
one = (add_peer name p1 FileIndex.init).1

one-IsPopulated : IsPopulated one
one-IsPopulated = add_peer-IsPopulated name p1 FileIndex.init init-IsPopulated

contains_peer_iff_example : (contains_peer name p1 one ≡ true) ↔ Memᴰ p1 (peers_of name one)
contains_peer_iff_example = contains_peer_iff name p1 one

calls-promises_example :
    calls (add name p1 ∷ add name p2 ∷ rand_peer 3 name ∷ count other ∷ []) FileIndex.init
    ≡ promises (add name p1 ∷ add name p2 ∷ rand_peer 3 name ∷ count other ∷ []) nothing_registered
calls-promises_example =
    calls-promises (add name p1 ∷ add name p2 ∷ rand_peer 3 name ∷ count other ∷ [])
