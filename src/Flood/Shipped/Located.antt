-- ===== src/Flood/Shipped/Located.antt =====
-- Queries in the topologies of config/ (src/decentralized_peer.cpp).
use cs550_pa.Prelude.{
  ℕ, ◌-◌, ◌<◌, ◌≤◌, ◌≡◌, ◌⊎◌, inl, inr, refl, arith, Bool, true, false, ◌&&◌, ◌==◌, ltb,
  if◌then◌else◌, Bool-cases, none, some, List, [], ◌∷◌, ◌++◌,
}
use cs550_pa.DecentralizedPeer.Config.Read.{Row, neighbor_ids, listed}
use cs550_pa.Flood.{Reply, Net, Run}
use cs550_pa.Flood.Threads.{Served, run-Served}
use cs550_pa.Flood.Covered.{Ends, nowhere, at_peer}
use cs550_pa.Flood.Measure.{InRange}
use cs550_pa.Flood.Shipped.{grid, star, topology_of, hops, hops-Connected, and_true}

-- All the numbers of the rows are below a bound.
unfoldable all_below : ℕ → List ℕ → Bool
all_below b [] = true
all_below b (n ∷ ns) = ltb n b && all_below b ns

unfoldable rows_below : ℕ → List Row → Bool
unfolding all_below
rows_below b [] = true
rows_below b ((id, ns) ∷ rows) = ltb id b && (all_below b ns && rows_below b rows)

listed-below : (b m : ℕ) (ns : List ℕ) → all_below b ns ≡ true → listed m ns ≡ true → m < b
unfolding listed all_below
listed-below b m [] e l = cc
listed-below b m (n ∷ ns) e l =
    let (this, rest) = and_true (ltb n b) (all_below b ns) e in
    elim (Bool-cases (n == m)) [
      | inl same ↦ ground (arith, same, this)
      | inr other ↦ listed-below b m ns rest (rw other at l)
    ]

listed-append :
    (m : ℕ) (ns ms : List ℕ)
    → listed m (ns ++ ms) ≡ true
    → (listed m ns ≡ true) ⊎ (listed m ms ≡ true)
unfolding listed
listed-append m [] ms l = inr l
listed-append m (n ∷ ns) ms l = elim (Bool-cases (n == m)) [
  | inl same ↦ inl (rw same refl)
  | inr other ↦ elim (listed-append m ns ms (rw other at l)) [
    | inl here ↦ inl (rw other here)
    | inr there ↦ inr there
  ]
]

neighbor_ids-below :
    (b n m : ℕ) (rows : List Row)
    → rows_below b rows ≡ true
    → listed m (neighbor_ids n rows) ≡ true
    → (n < b) × (m < b)
unfolding neighbor_ids rows_below listed
neighbor_ids-below b n m [] e l = cc
neighbor_ids-below b n m ((id, ns) ∷ rows) e l =
    let (this, others) = and_true (ltb id b) (all_below b ns && rows_below b rows) e in
    let (row, rest) = and_true (all_below b ns) (rows_below b rows) others in
    elim (Bool-cases (id == n)) [
      | inl same ↦ elim (listed-append m ns (neighbor_ids n rows) (rw same at l)) [
        | inl here ↦ (ground (arith, same, this), listed-below b m ns row here)
        | inr there ↦ neighbor_ids-below b n m rows rest there
      ]
      | inr other ↦ neighbor_ids-below b n m rows rest (rw other at l)
    ]

-- The topologies that come with the program.
pub data Shipped : List Row → Type 0 where
  grid_shipped : Shipped grid
  star_shipped : Shipped star

-- One row up, or to the left in the first row; and the middle of the star.
abbrev parent_of : {rows : List Row} → Shipped rows → ℕ → ℕ
parent_of grid_shipped m = if ltb m 5 then m - 1 else m - 4
parent_of star_shipped m = 1

Shipped-hops : {rows : List Row} (s : Shipped rows) → hops rows (parent_of s) 15 ≡ true
unfolding hops neighbor_ids listed
Shipped-hops grid_shipped = refl
Shipped-hops star_shipped = refl

Shipped-below : {rows : List Row} → Shipped rows → rows_below 17 rows ≡ true
unfolding rows_below all_below
Shipped-below grid_shipped = refl
Shipped-below star_shipped = refl

-- What a search among the sixteen peers should come to.
pub data Located (holds : ℕ → Bool) : Reply → Type 0 where
  nobody_has : ((m : ℕ) → 0 < m → m < 17 → holds m ≡ false) → Located holds none
  held_by : (h : ℕ) → holds h ≡ true → Located holds (some h)

Ends-Located :
    (rows : List Row) (shipped : Shipped rows) (holds : ℕ → Bool) (root : ℕ) (r : Reply)
    → 0 < root
    → root < 17
    → Ends (topology_of rows holds) root r
    → Located holds r
Ends-Located rows shipped holds root _ h k (nowhere none_has) = nobody_has (λ m h' k'.
    none_has m
      (hops-Connected rows holds (parent_of shipped) 15 (Shipped-hops shipped) root h k m h' k'))
Ends-Located rows shipped holds root _ h k (at_peer p has reach) = held_by p has

-- A way on to a result that is right.
pub data Finishes (threads : ℕ) (rows : List Row) (holds : ℕ → Bool) (root : ℕ) (s : Net)
    : Type 0 where
  finishes :
      (s' : Net) (r : Reply)
      → Served threads (topology_of rows holds) root s s'
      → s'.result ≡ some r
      → Located holds r
      → Finishes threads rows holds root s

-- With the grid or the star of config/, a search by one of the sixteen peers for a file that it has not got
-- goes on to a result, by steps for which there are threads, whatever the threads have done so far: a peer
-- that has the file, or none, and that only if none of the sixteen has it. There is no other search in the
-- network, and the pool of each peer has at least two threads besides that of the server's loop.
pub run-Finishes :
    (threads : ℕ) (rows : List Row) (shipped : Shipped rows) (holds : ℕ → Bool) (root : ℕ) (s : Net)
    → 2 ≤ threads
    → 0 < root
    → root < 17
    → holds root ≡ false
    → Run (topology_of rows holds) root s
    → Finishes threads rows holds root s
run-Finishes threads rows shipped holds root s two h k lacks run =
    let range : InRange (topology_of rows holds) root 17 = record {
      first = k;
      neighbors = λ n m l. neighbor_ids-below 17 n m rows (Shipped-below shipped) l;
    } in
    let (s', r, way, e, ends) =
      run-Served threads (topology_of rows holds) root 17 s two lacks range run in
    finishes s' r way e (Ends-Located rows shipped holds root r h k ends)
