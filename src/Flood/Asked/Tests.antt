-- ===== src/Flood/Asked/Tests.antt =====
-- A peer with two neighbours, of which one has sent it the query (src/decentralized_peer.cpp).
use mathlib.Core.List.{Memᴰ}
use mathlib.Core.List.Memᴰ
use cs550_pa.Prelude.{
  ℕ, ◌+◌, ◌*◌, ◌≡◌, ◌⊎◌, ◌↔◌, inl, inr, refl, ap, sym, arith, true, ◌&&◌, ◌||◌, ◌==◌, false, [],
  ◌∷◌, ℤ, pos, negsuc,
}
use cs550_pa.Comms.{Conn}
use cs550_pa.DecentralizedPeer.{Peer, others}
use cs550_pa.Flood.{Topology, asked, asks}
use cs550_pa.Flood.Asked.{Numbered, asks-others}

abbrev conn_of : ℕ → Conn
conn_of n = record { addr = pos n; port = pos 8000; sock = pos 0 }

abbrev peer : Peer
peer = record {
  peer_id = 1;
  message_count = 0;
  file_set = [];
  received_queries = [];
  neighbors = conn_of 2 ∷ conn_of 3 ∷ [];
  home = conn_of 1;
}

abbrev number : ℤ → ℕ
number (pos n) = 2 * n
number (negsuc n) = 2 * n + 1

abbrev between : Topology
between = record { neighbor = λ n m. n == 2 && (m == 4 || m == 6); holds = λ m. false }

apart : (x y : ℤ) → number x ≡ number y → x ≡ y
apart (pos n) (pos m) e = let q : n ≡ m = omega (arith, e) in ap pos q
apart (negsuc n) (negsuc m) e = let q : n ≡ m = omega (arith, e) in ap negsuc q
apart (pos n) (negsuc m) e = absurd (omega (arith, e))
apart (negsuc n) (pos m) e = absurd (omega (arith, e))

two_neighbors : (m : ℕ) → between.neighbor 2 m ≡ true → (m ≡ 4) ⊎ (m ≡ 6)
two_neighbors m e = ground (arith, e)

peer-Numbered : Numbered between 2 peer number
peer-Numbered = record {
  apart = apart;
  linked = λ m. (
    λ e. elim (two_neighbors m e) [
      | inl q ↦ (conn_of 2, Memᴰ.head refl, sym q)
      | inr q ↦ (conn_of 3, Memᴰ.tail (Memᴰ.head refl), sym q)
    ],
    λ p.
        let (c, there, q) = p in
        elim (Memᴰ.cases_cons there) [
          | inl e ↦ let n : number c.addr ≡ 4 = rw e refl in ground (arith, q, n)
          | inr r ↦ elim (Memᴰ.cases_cons r) [
            | inl e ↦ let n : number c.addr ≡ 6 = rw e refl in ground (arith, q, n)
            | inr none_left ↦ absurd (Memᴰ.not-nil none_left)
          ]
        ],
  );
}

asks-others_example :
    (asks between 2 4 6 ≡ asked)
    ↔ (c : Conn) × Memᴰ c (others (conn_of 2) peer.neighbors) × (number c.addr ≡ 6)
asks-others_example = asks-others between 2 peer number peer-Numbered (conn_of 2) 6
