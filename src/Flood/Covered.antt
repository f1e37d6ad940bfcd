-- ===== src/Flood/Covered.antt =====
-- What a search in a network of peers should come to, and what is known of it on the way
-- (src/decentralized_peer.cpp).
use cs550_pa.Prelude.{ℕ, ◌≡◌, ◌≢◌, ◌⊎◌, inl, inr, refl, true, false, none, some, Bool-cases}
use cs550_pa.Flood.{
  Topology, idle, waiting, Reply, Edge, unasked, asked, replied, Net, Responds, all_duplicates,
  from_one, Reach, at_root, over, Connected, itself, beyond,
}

-- What a search should come to: a peer with the file that can be reached over peers that have not, and
-- none only if no peer that is connected has the file.
pub data Ends (t : Topology) (root : ℕ) : Reply → Type 0 where
  nowhere : ((m : ℕ) → Connected t root m → t.holds m ≡ false) → Ends t root none
  at_peer : (h : ℕ) → t.holds h ≡ true → Reach t root h → Ends t root (some h)

-- On the way to a connected peer there is one with the file, or the way is open.
way_open :
    (t : Topology) (root m : ℕ)
    → Connected t root m
    → ((h : ℕ) × (t.holds h ≡ true) × Reach t root h) ⊎ Reach t root m
way_open t root m itself = inr at_root
way_open t root m (beyond n _ c l) = elim (way_open t root n c) [
  | inl earlier ↦ inl earlier
  | inr reach ↦ elim (Bool-cases (t.holds n)) [
    | inl has ↦ inl (n, has, reach)
    | inr lacks ↦ inr (over n m reach lacks l)
  ]
]

-- If no peer that can be reached has the file, no peer that is connected has.
pub nowhere_connected :
    (t : Topology) (root : ℕ) → ((m : ℕ) → Reach t root m → t.holds m ≡ false) → Ends t root none
nowhere_connected t root none_has = nowhere (λ m c. elim (way_open t root m c) [
  | inl (h, has, reach) ↦ cc (has, none_has h reach)
  | inr reach ↦ none_has m reach
])

-- A peer that waits has a reply that names a peer.
abbrev pub Kept : Net → Type 0
Kept s = (n m k : ℕ) × (s.node n ≡ waiting) × (s.edge n m ≡ replied (some k))

-- How far the query has come, and what the replies say.
pub record Cover (t : Topology) (root : ℕ) (s : Net) : Type 0 where
  pub reached : (n : ℕ) → s.node n ≢ idle → Reach t root n
  pub linked : (n m : ℕ) → s.edge n m ≢ unasked → t.neighbor n m ≡ true
  pub parent_seen : (n : ℕ) → s.node (s.parent n) ≢ idle
  pub covered :
      (n m : ℕ)
      → s.node n ≢ idle
      → t.holds n ≡ false
      → t.neighbor n m ≡ true
      → (s.node m ≢ idle) ⊎ (s.edge n m ≡ asked)
  pub honest : (n m h : ℕ) → s.edge n m ≡ replied (some h) → (t.holds h ≡ true) × Reach t root h
  pub kept : s.node root ≡ waiting → (h : ℕ) → s.node h ≢ idle → t.holds h ≡ true → Kept s
  pub ended : (r : Reply) → s.result ≡ some r → Ends t root r

pub Responds-from :
    {edge : ℕ → Edge} {r : Reply}
    → Responds edge r
    → (h : ℕ) → r ≡ some h
    → (m : ℕ) × (edge m ≡ replied (some h))
Responds-from (all_duplicates none_names) h q = cc
Responds-from (from_one m k e) h q = (m, cc)

pub Responds-some :
    {edge : ℕ → Edge} {r : Reply}
    → Responds edge r
    → (m h : ℕ) → edge m ≡ replied (some h)
    → (k : ℕ) × (r ≡ some k)
Responds-some (all_duplicates none_names) m h e = absurd (none_names m h e)
Responds-some (from_one n k f) m h e = (k, refl)
