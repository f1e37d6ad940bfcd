-- ===== src/Flood/Measure.antt =====
-- Each step of a query uses up a part of a finite measure (src/decentralized_peer.cpp).
use cs550_pa.Prelude.{
  ℕ, ◌+◌, ◌*◌, ◌<◌, ◌≤◌, ◌≡◌, ◌≢◌, refl, ap, ◌∙◌, arith, true, false, none, some,
}
use cs550_pa.Flood.{
  Topology, Node, idle, waiting, finished, Reply, Edge, unasked, asked, working, replied, Net, put,
  put_edge, put_row, asks, begun, Step, duplicate, found, forward, answer, return, Run, begin,
  then_step,
}
use cs550_pa.Flood.Invariant.{Tree, run-Tree}
use cs550_pa.Flood.Covered.{Cover}
use cs550_pa.Flood.Outcome.{run-Cover}
use cs550_pa.Flood.Sums.{sum, sum-le, sum_change, sum_pairs, sum_pairs_change, sum_pairs_row}

-- The peers are numbered below `size`.
pub record InRange (t : Topology) (root size : ℕ) : Type 0 where
  pub first : root < size
  pub neighbors : (n m : ℕ) → t.neighbor n m ≡ true → (n < size) × (m < size)

-- The steps that a thread has still before it.
abbrev pub edge_weight : Edge → ℕ
edge_weight asked = 2
edge_weight working = 1
edge_weight _ = 0

-- What a peer can still set off: a peer that has not seen the query can ask all the others.
abbrev pub node_weight : ℕ → Node → ℕ
node_weight size idle = 2 * size + 1
node_weight size waiting = 1
node_weight size finished = 0

abbrev pub nodes_left : ℕ → Net → ℕ
nodes_left size s = sum size (λ n. node_weight size (s.node n))

abbrev pub edges_left : ℕ → Net → ℕ
edges_left size s = sum_pairs size (λ n m. edge_weight (s.edge n m))

abbrev pub measure : ℕ → Net → ℕ
measure size s = nodes_left size s + edges_left size s

idle_row :
    (t : Topology) (root : ℕ) (s : Net) (i : Tree t root s) (m : ℕ)
    → s.node m ≡ idle
    → (x : ℕ) → edge_weight (s.edge m x) ≡ 0
idle_row t root s i m e x =
    weightless (s.edge m x) (λ q. cc (e, i.asked_waits m x q)) (λ q. cc (e, i.working_waits m x q))
  where
    weightless : (d : Edge) → d ≢ asked → d ≢ working → edge_weight d ≡ 0
    weightless unasked a w = refl
    weightless asked a w = absurd (a refl)
    weightless working a w = absurd (w refl)
    weightless (replied r) a w = refl

module _ (t : Topology) (root size : ℕ) (bounds : InRange t root size) (s : Net) (i : Tree t root s)
    (c : Cover t root s) where
  asked_bounds : (n m : ℕ) → s.edge n m ≡ asked → (n < size) × (m < size)
  asked_bounds n m e = bounds.neighbors n m (c.linked n m (λ q. cc (e, q)))

  working_bounds : (n m : ℕ) → s.edge n m ≡ working → (n < size) × (m < size)
  working_bounds n m e = bounds.neighbors n m (c.linked n m (λ q. cc (e, q)))

  -- One peer changes.
  nodes_change :
      (m : ℕ) (v : Node)
      → m < size
      → sum size (λ n. node_weight size (put s.node m v n)) + node_weight size (s.node m)
        ≡ nodes_left size s + node_weight size v
  nodes_change m v h =
      sum_change size m (λ n. node_weight size (s.node n))
        (λ n. node_weight size (put s.node m v n)) h (λ x ne. ground (arith, ne))
      ∙ ap (λ k. nodes_left size s + k) (ground arith)

  -- One thread moves on.
  edges_change :
      (n m : ℕ) (v : Edge)
      → n < size
      → m < size
      → sum_pairs size (λ x y. edge_weight (put_edge s.edge n m v x y)) + edge_weight (s.edge n m)
        ≡ edges_left size s + edge_weight v
  edges_change n m v h k =
      sum_pairs_change size n m (λ x y. edge_weight (s.edge x y))
        (λ x y. edge_weight (put_edge s.edge n m v x y)) h k (λ x y ne. ground (arith, ne))
        (λ y ne. ground (arith, ne))
      ∙ ap (λ w. edges_left size s + w) (ground arith)

  -- A peer that passes the query on fills its row.
  row_change :
      (m n : ℕ)
      → s.node m ≡ idle
      → m < size
      → (f : ℕ → ℕ → Edge)
      → sum_pairs size (λ x y. edge_weight (put_row f m (asks t m n) x y))
          + sum size (λ y. edge_weight (f m y))
        ≤ sum_pairs size (λ x y. edge_weight (f x y)) + 2 * size
  row_change m n new h f = omega (
    arith,
    sum_pairs_row size m (λ x y. edge_weight (f x y))
        (λ x y. edge_weight (put_row f m (asks t m n) x y)) h (λ x y ne. ground (arith, ne)),
    sum-le size 2 (λ y. edge_weight (put_row f m (asks t m n) m y)) (λ y. ground arith),
  )

  measure-duplicate :
      (n m : ℕ)
      → s.edge n m ≡ asked
      → measure size (record s { edge = put_edge s.edge n m (replied none) }) < measure size s
  measure-duplicate n m e =
      let b = asked_bounds n m e in
      omega (arith, edges_change n m (replied none) b.0 b.1, ap edge_weight e)

  measure-found :
      (n m : ℕ)
      → s.edge n m ≡ asked
      → s.node m ≡ idle
      → measure size
          (record s { node = put s.node m finished; edge = put_edge s.edge n m (replied (some m)) })
        < measure size s
  measure-found n m e new =
      let b = asked_bounds n m e in
      omega (
        arith,
        edges_change n m (replied (some m)) b.0 b.1,
        nodes_change m finished b.1,
        ap edge_weight e,
        ap (node_weight size) new,
      )

  measure-forward :
      (n m : ℕ)
      → s.edge n m ≡ asked
      → s.node m ≡ idle
      → measure size (record s {
        node = put s.node m waiting;
        edge = put_row (put_edge s.edge n m working) m (asks t m n);
        parent = put s.parent m n;
        stamp = put s.stamp m s.clock;
        clock = s.clock + 1;
      })
        < measure size s
  measure-forward n m e new =
      let b = asked_bounds n m e in
      omega (
        arith,
        row_change m n new b.1 (put_edge s.edge n m working),
        edges_change n m working b.0 b.1,
        nodes_change m waiting b.1,
        ap edge_weight e,
        ap (node_weight size) new,
      )

  measure-answer :
      (m : ℕ) (r : Reply)
      → m ≢ root
      → s.node m ≡ waiting
      → measure size (record s {
        node = put s.node m finished;
        edge = put_edge s.edge (s.parent m) m (replied r);
      })
        < measure size s
  measure-answer m r ne w =
      let e = i.works_for m w ne in
      let b = working_bounds (s.parent m) m e in
      omega (
        arith,
        edges_change (s.parent m) m (replied r) b.0 b.1,
        nodes_change m finished b.1,
        ap edge_weight e,
        ap (node_weight size) w,
      )

  measure-return :
      (r : Reply)
      → s.node root ≡ waiting
      → measure size (record s { node = put s.node root finished; result = some r })
        < measure size s
  measure-return r w =
      omega (arith, nodes_change root finished bounds.first, ap (node_weight size) w)

pub step-measure :
    (t : Topology) (root size : ℕ)
    → InRange t root size
    → {s s' : Net} → Tree t root s
    → Cover t root s
    → Step t root s s'
    → measure size s' < measure size s
step-measure t root size b {s} i c (duplicate n m e seen) =
    measure-duplicate t root size b s i c n m e
step-measure t root size b {s} i c (found n m e new has) =
    measure-found t root size b s i c n m e new
step-measure t root size b {s} i c (forward n m e new lacks) =
    measure-forward t root size b s i c n m e new
step-measure t root size b {s} i c (answer m r ne w settled q) =
    measure-answer t root size b s i c m r ne w
step-measure t root size b {s} i c (return r w settled q) = measure-return t root size b s i c r w

-- How many steps a run has.
unfoldable pub run_length : {t : Topology} {root : ℕ} {s : Net} → Run t root s → ℕ
run_length begin = 0
run_length (then_step s s' run st) = run_length run + 1

pub run_length-le :
    (t : Topology) (root size : ℕ) {s : Net}
    → t.holds root ≡ false
    → InRange t root size
    → (run : Run t root s) → run_length run + measure size s ≤ measure size (begun t root)
unfolding run_length
run_length-le t root size lacks b begin = omega arith
run_length-le t root size lacks b (then_step s s' run st) = omega (
  arith,
  run_length-le t root size lacks b run,
  step-measure t root size b (run-Tree t root lacks run) (run-Cover t root lacks run) st,
)
