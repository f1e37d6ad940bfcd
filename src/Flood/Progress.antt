-- ===== src/Flood/Progress.antt =====
-- A query never gets stuck, and ends (src/decentralized_peer.cpp).
use native.Mathlib.Decide.{ℕ_discrete, dec_lt}
use cs550_pa.Prelude.{
  ℕ, zero, suc, ◌+◌, ◌*◌, ◌<◌, ◌≤◌, ◌≡◌, ◌≢◌, refl, ap, arith, false, Option, none, some,
  Bool-cases, inl, inr,
}
use cs550_pa.Flood.{
  Topology, Node, idle, waiting, finished, Reply, Edge, unasked, asked, working, replied, Net,
  begun, Settled, not_asked, has_reply, Responds, all_duplicates, from_one, Step, duplicate, found,
  forward, answer, return, Run, begin, then_step,
}
use cs550_pa.Flood.Invariant.{Tree, run-Tree}
use cs550_pa.Flood.Covered.{Cover, Ends}
use cs550_pa.Flood.Outcome.{run-Cover, run-Ends}
use cs550_pa.Flood.Sums.{sum, sum-le}
use cs550_pa.Flood.Measure.{
  InRange, measure, step-measure, run_length, run_length-le, node_weight, edge_weight,
}

-- Where the threads of one peer stand.
data Row (row : ℕ → Edge) (bound : ℕ) : Type 0 where
  some_asked : (x : ℕ) → row x ≡ asked → Row row bound
  some_working : (x : ℕ) → row x ≡ working → Row row bound
  all_settled : ((x : ℕ) → x < bound → Settled (row x)) → Row row bound

row_suc :
    (row : ℕ → Edge) (bound : ℕ) (e : Edge) → row bound ≡ e → Row row bound → Row row (suc bound)
row_suc row bound e q (some_asked x a) = some_asked x a
row_suc row bound e q (some_working x a) = some_working x a
row_suc row bound asked q (all_settled h) = some_asked bound q
row_suc row bound working q (all_settled h) = some_working bound q
row_suc row bound unasked q (all_settled h) =
    all_settled
      (λ x k. elim (ℕ_discrete x bound) [ yes p ↦ rw (p, q) not_asked | no ne ↦ h x (omega arith) ])
row_suc row bound (replied r) q (all_settled h) = all_settled (λ x k. elim (ℕ_discrete x bound) [
  | yes p ↦ rw (p, q) (has_reply r)
  | no ne ↦ h x (omega arith)
])

row_cases : (row : ℕ → Edge) (bound : ℕ) → Row row bound
row_cases row zero = all_settled (λ x k. absurd (omega arith))
row_cases row (suc bound) = row_suc row bound (row bound) refl (row_cases row bound)

-- Whether a reply of a row below a bound names a peer.
data Names (row : ℕ → Edge) (bound : ℕ) : Type 0 where
  names : (m h : ℕ) → row m ≡ replied (some h) → Names row bound
  nobody : ((m h : ℕ) → m < bound → row m ≢ replied (some h)) → Names row bound

names_suc :
    (row : ℕ → Edge) (bound : ℕ) (e : Edge)
    → row bound ≡ e
    → Names row bound
    → Names row (suc bound)
names_suc row bound e q (names m h n) = names m h n
names_suc row bound (replied (some h)) q (nobody f) = names bound h q
names_suc row bound (replied none) q (nobody f) = nobody (λ m h k e. elim (ℕ_discrete m bound) [
  | yes p ↦ ground (arith, p, q, e)
  | no ne ↦ f m h (omega arith) e
])
names_suc row bound unasked q (nobody f) = nobody (λ m h k e. elim (ℕ_discrete m bound) [
  | yes p ↦ ground (arith, p, q, e)
  | no ne ↦ f m h (omega arith) e
])
names_suc row bound asked q (nobody f) = nobody (λ m h k e. elim (ℕ_discrete m bound) [
  | yes p ↦ ground (arith, p, q, e)
  | no ne ↦ f m h (omega arith) e
])
names_suc row bound working q (nobody f) = nobody (λ m h k e. elim (ℕ_discrete m bound) [
  | yes p ↦ ground (arith, p, q, e)
  | no ne ↦ f m h (omega arith) e
])

names_cases : (row : ℕ → Edge) (bound : ℕ) → Names row bound
names_cases row zero = nobody (λ m h k e. absurd (omega arith))
names_cases row (suc bound) = names_suc row bound (row bound) refl (names_cases row bound)

-- The first peer waits until there is a result.
run_open :
    (t : Topology) (root : ℕ) {s : Net} → Run t root s → s.result ≡ none → s.node root ≡ waiting
run_open t root begin e = ground arith
run_open t root (then_step s s' run (duplicate n m a seen)) e = run_open t root run e
run_open t root (then_step s s' run (found n m a new has)) e = ground (arith, run_open t root run e)
run_open t root (then_step s s' run (forward n m a new lacks)) e =
    ground (arith, run_open t root run e)
run_open t root (then_step s s' run (answer m r ne w settled q)) e =
    ground (arith, run_open t root run e)
run_open t root (then_step s s' run (return r w settled q)) e = cc

-- A next state.
abbrev pub Goes : Topology → ℕ → Net → Type 0
Goes t root s = (s' : Net) × Step t root s s'

module _ (t : Topology) (root size : ℕ) (b : InRange t root size) (s : Net) (i : Tree t root s)
    (c : Cover t root s) where
  -- A request that is on the way can arrive.
  asked-Goes : (n m : ℕ) → s.edge n m ≡ asked → Goes t root s
  asked-Goes n m e = node_goes (s.node m) refl
    where
      node_goes : (v : Node) → s.node m ≡ v → Goes t root s
      node_goes idle q = elim (Bool-cases (t.holds m)) [
        | inl has ↦ (_, found n m e q has)
        | inr lacks ↦ (_, forward n m e q lacks)
      ]
      node_goes waiting q = (_, duplicate n m e (λ p. cc (p, q)))
      node_goes finished q = (_, duplicate n m e (λ p. cc (p, q)))

  Settled-everywhere :
      (m : ℕ) → ((x : ℕ) → x < size → Settled (s.edge m x)) → (x : ℕ) → Settled (s.edge m x)
  Settled-everywhere m h x = elim (dec_lt x size) [
    | yes l ↦ h x l
    | no far ↦ outside (s.edge m x) refl far
  ]
    where
      in_range : s.edge m x ≢ unasked → x < size
      in_range ne = (b.neighbors m x (c.linked m x ne)).1

      outside : (e : Edge) → s.edge m x ≡ e → ¬ (x < size) → Settled (s.edge m x)
      outside unasked q far = rw q not_asked
      outside asked q far = absurd (far (in_range (λ u. cc (q, u))))
      outside working q far = absurd (far (in_range (λ u. cc (q, u))))
      outside (replied r) q far = rw q (has_reply r)

  responds : (m : ℕ) → (r : Reply) × Responds (s.edge m) r
  responds m = elim (names_cases (s.edge m) size) [
    | names x h e ↦ (some h, from_one x h e)
    | nobody f ↦ (
      none,
      all_duplicates (λ x h e. f x h (b.neighbors m x (c.linked m x (λ u. cc (e, u)))).1 e),
    )
  ]

  -- A peer that waits can go on, or waits for one that began later.
  waiting-Goes : (fuel m : ℕ) → s.clock ≤ s.stamp m + fuel → s.node m ≡ waiting → Goes t root s
  waiting-Goes zero m h w = absurd (omega (arith, i.stamped m w))
  waiting-Goes (suc fuel) m h w = elim (row_cases (s.edge m) size) [
    | some_asked x e ↦ asked-Goes m x e
    | some_working x e ↦
        let (up, other) = i.child m x e in
        let waits = i.waits_for m x e in
        waiting-Goes fuel x (omega (arith, i.earlier x waits other, ap s.stamp up)) waits
    | all_settled f ↦
        let settled = Settled-everywhere m f in
        elim (ℕ_discrete m root) [
          | yes p ↦ let (r, q) = responds root in (_, return r (rw p at w) (rw p at settled) q)
          | no ne ↦ let (r, q) = responds m in (_, answer m r ne w settled q)
        ]
  ]

-- Until the first peer has its result, some thread of some peer can go on: no order of steps gets stuck.
pub run-Goes :
    (t : Topology) (root size : ℕ) (s : Net)
    → t.holds root ≡ false
    → InRange t root size
    → Run t root s
    → s.result ≡ none
    → Goes t root s
run-Goes t root size s lacks b run e =
    waiting-Goes t root size b s (run-Tree t root lacks run) (run-Cover t root lacks run) s.clock
      root (omega arith) (run_open t root run e)

-- The most steps that a search takes among so many peers.
abbrev pub step_bound : ℕ → ℕ
step_bound size = size * (2 * size + 1) + size * (2 * size)

measure-begun : (t : Topology) (root size : ℕ) → measure size (begun t root) ≤ step_bound size
measure-begun t root size = omega (
  arith,
  sum-le size (2 * size + 1) (λ n. node_weight size ((begun t root).node n)) (λ n. ground arith),
  sum-le size (2 * size) (λ n. sum size (λ m. edge_weight ((begun t root).edge n m)))
      (λ n.
        omega
          (arith, sum-le size 2 (λ m. edge_weight ((begun t root).edge n m)) (λ m. ground arith))),
)

-- Every search takes at most so many steps, whatever the order.
pub run_length-bound :
    (t : Topology) (root size : ℕ) (s : Net)
    → t.holds root ≡ false
    → InRange t root size
    → (run : Run t root s) → run_length run ≤ step_bound size
run_length-bound t root size s lacks b run =
    omega (arith, run_length-le t root size lacks b run, measure-begun t root size)

-- A way on from one state to another.
pub data Leads (t : Topology) (root : ℕ) : Net → Net → Type 0 where
  here : (s : Net) → Leads t root s s
  go_on : (s s' s'' : Net) → Step t root s s' → Leads t root s' s'' → Leads t root s s''

-- A way on to a result, which is right.
abbrev pub Completes : Topology → ℕ → Net → Type 0
Completes t root s =
    (s' : Net) × (r : Reply) × Leads t root s s' × (s'.result ≡ some r) × Ends t root r

Completes-from :
    (t : Topology) (root size fuel : ℕ) (s : Net)
    → t.holds root ≡ false
    → InRange t root size
    → Run t root s
    → measure size s ≤ fuel
    → (o : Option Reply) → s.result ≡ o
    → Completes t root s
Completes-from t root size fuel s lacks b run h (some r) e =
    (s, r, here s, e, run-Ends t root s r lacks run e)
Completes-from t root size zero s lacks b run h none e =
    let (s', st) = run-Goes t root size s lacks b run e in
    absurd (
      omega (
        arith,
        step-measure t root size b (run-Tree t root lacks run) (run-Cover t root lacks run) st,
      ))
Completes-from t root size (suc fuel) s lacks b run h none e =
    let (s', st) = run-Goes t root size s lacks b run e in
    let less =
      step-measure t root size b (run-Tree t root lacks run) (run-Cover t root lacks run) st in
    let (s'', r, way, q, ends) =
      Completes-from t root size fuel s' lacks b (then_step s s' run st) (omega (arith, less))
        s'.result refl in
    (s'', r, go_on s s' s'' st way, q, ends)

-- Whatever the threads have done so far, a search among finitely many peers goes on to a result, which
-- names a peer that has the file and can be reached, or is none where there is no such peer.
pub run-Completes :
    (t : Topology) (root size : ℕ) (s : Net)
    → t.holds root ≡ false
    → InRange t root size
    → Run t root s
    → Completes t root s
run-Completes t root size s lacks b run =
    Completes-from t root size (measure size s) s lacks b run (omega arith) s.result refl
