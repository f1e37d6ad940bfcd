-- ===== src/Flood/Shipped.antt =====
-- The topologies of config/, as src/decentralized_peer.cpp reads them, and queries in them.
pub mod Located
mod Tests
use native.Mathlib.Decide.{ℕ_discrete}
use cs550_pa.Prelude.{
  ℕ, zero, suc, ◌+◌, ◌-◌, ◌<◌, ◌≤◌, ◌≡◌, ◌⊎◌, inl, inr, refl, sym, ap, ◌∙◌, arith, Bool, true,
  false, ◌&&◌, ◌==◌, ltb, leb, if◌then◌else◌, Bool-cases, List, [], ◌∷◌, ◌++◌, tests,
}
use cs550_pa.DecentralizedPeer.Config.Read.{Row, neighbor_ids, listed}
use cs550_pa.Flood.{Topology, Connected, itself, beyond}
use cs550_pa.Flood.Measure.{InRange}

-- config/grid-topology.txt
abbrev pub grid : List Row
grid =
    (1, 2 ∷ 5 ∷ [])
    ∷ (2, 1 ∷ 3 ∷ 6 ∷ [])
    ∷ (3, 2 ∷ 4 ∷ 7 ∷ [])
    ∷ (4, 3 ∷ 8 ∷ [])
    ∷ (5, 1 ∷ 6 ∷ 9 ∷ [])
    ∷ (6, 2 ∷ 5 ∷ 7 ∷ 10 ∷ [])
    ∷ (7, 3 ∷ 6 ∷ 8 ∷ 11 ∷ [])
    ∷ (8, 4 ∷ 7 ∷ 12 ∷ [])
    ∷ (9, 5 ∷ 10 ∷ 13 ∷ [])
    ∷ (10, 6 ∷ 9 ∷ 11 ∷ 14 ∷ [])
    ∷ (11, 7 ∷ 10 ∷ 12 ∷ 15 ∷ [])
    ∷ (12, 8 ∷ 11 ∷ 16 ∷ [])
    ∷ (13, 9 ∷ 14 ∷ [])
    ∷ (14, 10 ∷ 13 ∷ 15 ∷ [])
    ∷ (15, 11 ∷ 14 ∷ 16 ∷ [])
    ∷ (16, 12 ∷ 15 ∷ [])
    ∷ []

-- config/star-topology.txt
abbrev pub star : List Row
star =
    (1, 2 ∷ 3 ∷ 4 ∷ 5 ∷ 6 ∷ 7 ∷ 8 ∷ 9 ∷ 10 ∷ 11 ∷ 12 ∷ 13 ∷ 14 ∷ 15 ∷ 16 ∷ [])
    ∷ (2, 1 ∷ [])
    ∷ (3, 1 ∷ [])
    ∷ (4, 1 ∷ [])
    ∷ (5, 1 ∷ [])
    ∷ (6, 1 ∷ [])
    ∷ (7, 1 ∷ [])
    ∷ (8, 1 ∷ [])
    ∷ (9, 1 ∷ [])
    ∷ (10, 1 ∷ [])
    ∷ (11, 1 ∷ [])
    ∷ (12, 1 ∷ [])
    ∷ (13, 1 ∷ [])
    ∷ (14, 1 ∷ [])
    ∷ (15, 1 ∷ [])
    ∷ (16, 1 ∷ [])
    ∷ []

-- The network of a topology file, where some peers have the file that is looked for.
abbrev pub topology_of : List Row → (ℕ → Bool) → Topology
topology_of rows holds = record { neighbor = λ n m. listed m (neighbor_ids n rows); holds = holds }

-- A hop from a peer towards the first, and back.
abbrev pub hop : List Row → (ℕ → ℕ) → ℕ → Bool
hop rows parent m =
    listed (parent m) (neighbor_ids m rows)
    && (listed m (neighbor_ids (parent m) rows) && (ltb (parent m) m && ltb 0 (parent m)))

-- The hops of so many peers from the second on.
unfoldable pub hops : List Row → (ℕ → ℕ) → ℕ → Bool
hops rows parent zero = true
hops rows parent (suc k) = hop rows parent (k + 2) && hops rows parent k

pub and_true : (a b : Bool) → (a && b) ≡ true → (a ≡ true) × (b ≡ true)
and_true true b e = (refl, e)
and_true false b e = cc

record Hop (rows : List Row) (parent : ℕ → ℕ) (m : ℕ) : Type 0 where
  up : listed (parent m) (neighbor_ids m rows) ≡ true
  down : listed m (neighbor_ids (parent m) rows) ≡ true
  less : parent m < m
  positive : 0 < parent m

hop-Hop : (rows : List Row) (parent : ℕ → ℕ) (m : ℕ) → hop rows parent m ≡ true → Hop rows parent m
hop-Hop rows parent m e =
    let (up, others) = and_true (listed (parent m) (neighbor_ids m rows)) _ e in
    let (down, bounds) = and_true (listed m (neighbor_ids (parent m) rows)) _ others in
    let (less, positive) = and_true (ltb (parent m) m) (ltb 0 (parent m)) bounds in
    record { up = up; down = down; less = omega (tests, less); positive = omega (tests, positive) }

hops-Hop :
    (rows : List Row) (parent : ℕ → ℕ) (count m : ℕ)
    → hops rows parent count ≡ true
    → 1 < m
    → m < count + 2
    → Hop rows parent m
unfolding hops
hops-Hop rows parent zero m e h k = absurd (omega arith)
hops-Hop rows parent (suc count) m e h k =
    let (this, rest) = and_true (hop rows parent (count + 2)) (hops rows parent count) e in
    elim (ℕ_discrete m (count + 2)) [
      | yes q ↦ rw q (hop-Hop rows parent (count + 2) this)
      | no ne ↦ hops-Hop rows parent count m rest h (omega arith)
    ]

module _ (rows : List Row) (holds : ℕ → Bool) (parent : ℕ → ℕ) (count : ℕ)
    (checked : hops rows parent count ≡ true) (root : ℕ) where
  climb :
      (fuel m : ℕ)
      → m ≤ fuel
      → 0 < m
      → m < count + 2
      → Connected (topology_of rows holds) root m
      → Connected (topology_of rows holds) root 1
  climb zero m f h k c = absurd (omega arith)
  climb (suc fuel) m f h k c = elim (ℕ_discrete m 1) [
    | yes q ↦ rw q at c
    | no ne ↦
        let there = hops-Hop rows parent count m checked (omega arith) k in
        climb fuel (parent m) (omega (arith, there.less)) there.positive (omega (arith, there.less))
          (beyond m (parent m) c there.up)
  ]

  descend :
      (fuel m : ℕ)
      → m ≤ fuel
      → 0 < m
      → m < count + 2
      → Connected (topology_of rows holds) root 1
      → Connected (topology_of rows holds) root m
  descend zero m f h k c = absurd (omega arith)
  descend (suc fuel) m f h k c = elim (ℕ_discrete m 1) [
    | yes q ↦ rw q c
    | no ne ↦
        let there = hops-Hop rows parent count m checked (omega arith) k in
        beyond (parent m) m
          (descend fuel (parent m) (omega (arith, there.less)) there.positive
            (omega (arith, there.less)) c)
          there.down
  ]

  -- Every peer of a checked topology is connected to every other.
  pub hops-Connected :
      0 < root
      → root < count + 2
      → (m : ℕ) → 0 < m
      → m < count + 2
      → Connected (topology_of rows holds) root m
  hops-Connected h k m h' k' =
      descend m m (omega arith) h' k' (climb root root (omega arith) h k itself)
