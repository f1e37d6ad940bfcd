-- ===== src/DecentralizedPeer/Config/Tests.antt =====
-- A peer in the middle of a star, with an address after a space (src/decentralized_peer.cpp).
use cs550_pa.Prelude.{
  ℕ, ◌≡◌, refl, arith, true, false, some, List, [], ◌∷◌, map, ℤ, pos, negsuc, if◌then◌else◌,
}
use cs550_pa.Comms.{no_conn}
use cs550_pa.DecentralizedPeer.{Peer}
use cs550_pa.DecentralizedPeer.Config.{Inet, Entry, new_peer, init_neighbors}
use cs550_pa.Text.{is_digit}
use cs550_pa.Text.Lines.{none_left, not_here, All, all_nil, all_cons, print_lines}
use cs550_pa.DecentralizedPeer.Config.Linked.{Created, new_peer-Created}
use cs550_pa.DecentralizedPeer.Config.Read.{
  Row, Host, IsRow, IsHost, print_row, print_host, init_neighbors-linked, linked, neighbor_ids,
  listed,
}

-- An `inet_addr` that refuses what does not start with a digit.
abbrev first_byte : List ℕ → ℤ
first_byte [] = negsuc 0
first_byte (c ∷ cs) = if is_digit c then pos c else negsuc 0

abbrev inet : Inet
inet = record { inet_addr = first_byte; junk = pos 3 }

abbrev star : List Row
star = (1, 2 ∷ 3 ∷ []) ∷ (2, 1 ∷ []) ∷ (3, 1 ∷ []) ∷ []

star-IsRow : All IsRow star
star-IsRow =
    all_cons _ _ (omega arith, all_cons _ _ (omega arith) (all_cons _ _ (omega arith) all_nil))
      (all_cons _ _ (omega arith, all_cons _ _ (omega arith) all_nil)
        (all_cons _ _ (omega arith, all_cons _ _ (omega arith) all_nil) all_nil))

abbrev hosts : List Host
hosts = (2, b'7' ∷ []) ∷ (3, b' ' ∷ b'9' ∷ []) ∷ []

hosts-IsHost : All IsHost hosts
hosts-IsHost =
    all_cons _ _ (omega arith, not_here _ _ refl none_left)
      (all_cons _ _ (omega arith, not_here _ _ refl (not_here _ _ refl none_left)) all_nil)

abbrev entries : List Entry
entries =
    record { d_name = b'.' ∷ []; is_regular = false }
    ∷ record { d_name = b'f' ∷ []; is_regular = true }
    ∷ []

-- The address after a space is refused, and the peer still gets a neighbour.
space_refused :
    init_neighbors inet
      (pos 1)
      (print_lines (map print_row star))
      (print_lines (map print_host hosts))
    ≡ some (
        record { addr = pos b'7'; port = pos 8000; sock = pos 3 }
        ∷ record { addr = negsuc 0; port = pos 8000; sock = pos 3 }
        ∷ [])
unfolding linked neighbor_ids listed
space_refused = init_neighbors-linked inet 1 star hosts star-IsRow hosts-IsHost

new_peer-Created_example :
    (p : Peer) × (new_peer inet 1
        (print_lines (map print_row star))
        (print_lines (map print_host hosts))
        (some entries)
        no_conn
        true
        77
      ≡ some p)
    × Created inet 1 star hosts entries p
new_peer-Created_example =
    new_peer-Created inet 1 star hosts entries no_conn 77 (omega arith) star-IsRow hosts-IsHost
