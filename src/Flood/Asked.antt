-- ===== src/Flood/Asked.antt =====
-- Whom a peer asks: the network's view and `broadcast_query` of src/decentralized_peer.cpp.
mod Tests
use mathlib.Core.List.{Memᴰ}
use cs550_pa.Prelude.{
  ℕ, ◌≡◌, ◌↔◌, inl, inr, refl, ap, ◌∙◌, sym, arith, true, false, not, ◌&&◌, ◌==◌, ℤ, eq_ℤ, eq_ℤ_iff,
  Bool-cases, if◌then◌else◌,
}
use cs550_pa.Comms.{Conn}
use cs550_pa.DecentralizedPeer.{Peer, others}
use cs550_pa.DecentralizedPeer.Replies.{others_iff, others_back}
use cs550_pa.Flood.{Topology, asked, unasked, asks}

-- The addresses have different numbers, and the neighbours of the peer `n` are those of its connections.
pub record Numbered (t : Topology) (n : ℕ) (peer : Peer) (number : ℤ → ℕ) : Type 0 where
  pub apart : (x y : ℤ) → number x ≡ number y → x ≡ y
  pub linked :
      (m : ℕ) → (t.neighbor n m ≡ true) ↔ (c : Conn) × Memᴰ c peer.neighbors × (number c.addr ≡ m)

module _ (t : Topology) (n : ℕ) (peer : Peer) (number : ℤ → ℕ) (k : Numbered t n peer number)
    (sender : Conn) (m : ℕ) where
  asks-neighbor :
      asks t n (number sender.addr) m ≡ asked
      → (t.neighbor n m ≡ true) × ((m == number sender.addr) ≡ false)
  asks-neighbor e = ground (arith, e)

  neighbor-asks :
      t.neighbor n m ≡ true
      → (m == number sender.addr) ≡ false
      → asks t n (number sender.addr) m ≡ asked
  neighbor-asks l e = rw (l, e) refl

  other_address :
      (c : Conn)
      → number c.addr ≡ m
      → (m == number sender.addr) ≡ false
      → eq_ℤ c.addr sender.addr ≡ false
  other_address c e d = elim (Bool-cases (eq_ℤ c.addr sender.addr)) [
    | inl same ↦
        let q : number c.addr ≡ number sender.addr =
          ap number ((eq_ℤ_iff c.addr sender.addr).0 same) in
        absurd (ground (arith, q, e, d))
    | inr other ↦ other
  ]

  other_number :
      (c : Conn)
      → number c.addr ≡ m
      → eq_ℤ c.addr sender.addr ≡ false
      → (m == number sender.addr) ≡ false
  other_number c e d = elim (Bool-cases (m == number sender.addr)) [
    | inl same ↦
        let q : number c.addr ≡ number sender.addr = ground (arith, same, e) in
        cc (d, (eq_ℤ_iff c.addr sender.addr).1 (k.apart c.addr sender.addr q))
    | inr other ↦ other
  ]

-- When a peer of the network passes a query on, the peers that it asks are those to which `broadcast_query`
-- sends it: a peer is asked if and only if it has the number of a connection in the list of neighbours
-- without the sender's. The addresses have different numbers, and the links of the topology are the
-- connections of the peer.
pub asks-others :
    (t : Topology) (n : ℕ) (peer : Peer) (number : ℤ → ℕ)
    → Numbered t n peer number
    → (sender : Conn) (m : ℕ)
    → (asks t n (number sender.addr) m ≡ asked)
      ↔ (c : Conn) × Memᴰ c (others sender peer.neighbors) × (number c.addr ≡ m)
asks-others t n peer number k sender m = (
  λ e.
      let (l, d) = asks-neighbor t n peer number k sender m e in
      let (c, there, q) = (k.linked m).0 l in
      (
        c,
        others_back sender c peer.neighbors there (other_address t n peer number k sender m c q d),
        q,
      ),
  λ p.
      let (c, there, q) = p in
      let (neighbor, d) = others_iff sender c peer.neighbors there in
      neighbor-asks t n peer number k sender m ((k.linked m).1 (c, neighbor, q))
        (other_number t n peer number k sender m c q d),
)
