-- ===== src/Flood/Invariant.antt =====
-- What holds in every run of a query (src/decentralized_peer.cpp).
use cs550_pa.Prelude.{ℕ, zero, suc, ◌+◌, ◌<◌, ◌≡◌, ◌≢◌, arith, false, none, some}
use native.Mathlib.Decide.{ℕ_discrete}
use cs550_pa.Flood.{
  Topology, idle, waiting, finished, Reply, Edge, asked, working, replied, Net, put, put_edge,
  put_row, asks, begun, Settled, not_asked, has_reply, Step, duplicate, found, forward, answer,
  return, Run, begin, then_step,
}

-- How the threads and the peers that they wait for fit together.
pub record Tree (t : Topology) (root : ℕ) (s : Net) : Type 0 where
  pub asked_waits : (n m : ℕ) → s.edge n m ≡ asked → s.node n ≡ waiting
  pub working_waits : (n m : ℕ) → s.edge n m ≡ working → s.node n ≡ waiting
  pub works_for : (m : ℕ) → s.node m ≡ waiting → m ≢ root → s.edge (s.parent m) m ≡ working
  pub waits_for : (n m : ℕ) → s.edge n m ≡ working → s.node m ≡ waiting
  pub child : (n m : ℕ) → s.edge n m ≡ working → (s.parent m ≡ n) × (m ≢ root)
  pub earlier : (m : ℕ) → s.node m ≡ waiting → m ≢ root → s.stamp (s.parent m) < s.stamp m
  pub stamped : (m : ℕ) → s.node m ≡ waiting → s.stamp m < s.clock
  pub root_seen : s.node root ≢ idle
  pub no_holder : (m : ℕ) → s.node m ≡ waiting → t.holds m ≡ false

not_working : {e : Edge} → Settled e → e ≢ working
not_working not_asked h = cc
not_working (has_reply r) h = cc

pub not_asking : {e : Edge} → Settled e → e ≢ asked
not_asking not_asked h = cc
not_asking (has_reply r) h = cc

module _ (t : Topology) (root : ℕ) (s : Net) (i : Tree t root s) where
  Tree-duplicate :
      (n m : ℕ)
      → s.edge n m ≡ asked
      → s.node m ≢ idle
      → Tree t root (record s { edge = put_edge s.edge n m (replied none) })
  Tree-duplicate n m e seen = record {
    asked_waits = λ x y h. ground (arith, i.asked_waits x y);
    working_waits = λ x y h. ground (arith, i.working_waits x y);
    works_for = λ x h k. ground (arith, i.works_for x h k, e);
    waits_for = λ x y h. ground (arith, i.waits_for x y);
    child = λ x y h. ground (arith, i.child x y, h);
    earlier = i.earlier;
    stamped = i.stamped;
    root_seen = i.root_seen;
    no_holder = i.no_holder;
  }

  Tree-found :
      (n m : ℕ)
      → s.edge n m ≡ asked
      → s.node m ≡ idle
      → Tree t root
          (record s { node = put s.node m finished; edge = put_edge s.edge n m (replied (some m)) })
  Tree-found n m e new = record {
    asked_waits = λ x y h. ground (arith, i.asked_waits x y, new);
    working_waits = λ x y h. ground (arith, i.working_waits x y, new);
    works_for = λ x h k. ground (arith, i.works_for x, e, h, k);
    waits_for = λ x y h. ground (arith, i.waits_for x y, new, e);
    child = λ x y h. ground (arith, i.child x y, h);
    earlier = λ x h k. ground (arith, i.earlier x, h, k);
    stamped = λ x h. ground (arith, i.stamped x, h);
    root_seen = λ h. ground (arith, i.root_seen, h);
    no_holder = λ x h. ground (arith, i.no_holder x, h);
  }

  Tree-forward :
      (n m : ℕ)
      → s.edge n m ≡ asked
      → s.node m ≡ idle
      → t.holds m ≡ false
      → Tree t root (record s {
        node = put s.node m waiting;
        edge = put_row (put_edge s.edge n m working) m (asks t m n);
        parent = put s.parent m n;
        stamp = put s.stamp m s.clock;
        clock = s.clock + 1;
      })
  Tree-forward n m e new lacks = record {
    asked_waits = λ x y h. ground (arith, i.asked_waits x y, h);
    working_waits = λ x y h. ground (arith, i.working_waits x y, i.asked_waits n m e, h);
    works_for = λ x h k.
        ground
          (arith, i.works_for x, i.asked_waits n m e, i.working_waits (s.parent x) x, new, e, h, k);
    waits_for = λ x y h. ground (arith, i.waits_for x y, new, e, h);
    child =
        λ x y h. ground (arith, i.child x y, i.waits_for x y, i.works_for m, new, h, i.root_seen);
    earlier = λ x h k. ground (
      arith,
      i.earlier x,
      i.works_for x,
      i.working_waits (s.parent x) x,
      i.stamped n (i.asked_waits n m e),
      i.asked_waits n m e,
      new,
      h,
      k,
    );
    stamped = λ x h. ground (arith, i.stamped x, h);
    root_seen = λ h. ground (arith, i.root_seen, h);
    no_holder = λ x h. ground (arith, i.no_holder x, h, lacks);
  }

  Tree-answer :
      (m : ℕ) (r : Reply)
      → m ≢ root
      → s.node m ≡ waiting
      → ((x : ℕ) → Settled (s.edge m x))
      → Tree t root (record s {
        node = put s.node m finished;
        edge = put_edge s.edge (s.parent m) m (replied r);
      })
  Tree-answer m r ne w settled = record {
    asked_waits = λ x y h. ground (arith, i.asked_waits x y, not_asking (settled y), h);
    working_waits = λ x y h. ground (arith, i.working_waits x y, not_working (settled y), h);
    works_for = λ x h k. ground (arith, i.works_for x, h, k);
    waits_for = λ x y h. ground (arith, i.waits_for x y, i.child x y, h);
    child = λ x y h. ground (arith, i.child x y, h);
    earlier = λ x h k. ground (arith, i.earlier x, h, k);
    stamped = λ x h. ground (arith, i.stamped x, h);
    root_seen = λ h. ground (arith, i.root_seen, h);
    no_holder = λ x h. ground (arith, i.no_holder x, h);
  }

  Tree-return :
      (r : Reply)
      → ((x : ℕ) → Settled (s.edge root x))
      → Tree t root (record s { node = put s.node root finished; result = some r })
  Tree-return r settled = record {
    asked_waits = λ x y h. ground (arith, i.asked_waits x y, not_asking (settled y), h);
    working_waits = λ x y h. ground (arith, i.working_waits x y, not_working (settled y), h);
    works_for = λ x h k. ground (arith, i.works_for x, h, k);
    waits_for = λ x y h. ground (arith, i.waits_for x y, i.child x y, h);
    child = i.child;
    earlier = λ x h k. ground (arith, i.earlier x, h, k);
    stamped = λ x h. ground (arith, i.stamped x, h);
    root_seen = λ h. ground (arith, i.root_seen, h);
    no_holder = λ x h. ground (arith, i.no_holder x, h);
  }

pub step-Tree :
    (t : Topology) (root : ℕ) {s s' : Net} → Step t root s s' → Tree t root s → Tree t root s'
step-Tree t root {s} (duplicate n m e seen) i = Tree-duplicate t root s i n m e seen
step-Tree t root {s} (found n m e new has) i = Tree-found t root s i n m e new
step-Tree t root {s} (forward n m e new lacks) i = Tree-forward t root s i n m e new lacks
step-Tree t root {s} (answer m r ne w settled q) i = Tree-answer t root s i m r ne w settled
step-Tree t root {s} (return r w settled q) i = Tree-return t root s i r settled

pub begun-Tree : (t : Topology) (root : ℕ) → t.holds root ≡ false → Tree t root (begun t root)
begun-Tree t root lacks = record {
  asked_waits = λ x y h. ground (arith, h);
  working_waits = λ x y h. ground (arith, h);
  works_for = λ x h k. ground (arith, h, k);
  waits_for = λ x y h. ground (arith, h);
  child = λ x y h. ground (arith, h);
  earlier = λ x h k. ground (arith, h, k);
  stamped = λ x h. ground (arith, h);
  root_seen = λ h. ground (arith, h);
  no_holder = λ x h. ground (arith, h, lacks);
}

pub run-Tree :
    (t : Topology) (root : ℕ) {s : Net} → t.holds root ≡ false → Run t root s → Tree t root s
run-Tree t root lacks begin = begun-Tree t root lacks
run-Tree t root lacks (then_step s s' run st) = step-Tree t root st (run-Tree t root lacks run)

-- While the first peer still has a thread that works, it works for a chain of peers: a peer that waits
-- leads up to a working thread of the first.
pub leads_to_root :
    (t : Topology) (root : ℕ) (s : Net) (i : Tree t root s) (fuel m : ℕ)
    → s.stamp m < fuel
    → s.node m ≡ waiting
    → m ≢ root
    → (x : ℕ) × (s.edge root x ≡ working)
leads_to_root t root s i zero m h w ne = absurd (omega arith)
leads_to_root t root s i (suc fuel) m h w ne =
    let p = s.parent m in
    let e = i.works_for m w ne in
    elim (ℕ_discrete p root) [
      | yes q ↦ (m, rw q at e)
      | no other ↦
          leads_to_root t root s i fuel p (omega (arith, i.earlier m w ne)) (i.working_waits p m e)
            other
    ]

-- When no thread of the first peer is out, no other peer waits.
pub all_joined :
    (t : Topology) (root : ℕ) (s : Net)
    → Tree t root s
    → ((x : ℕ) → Settled (s.edge root x))
    → (m : ℕ) → s.node m ≡ waiting
    → m ≡ root
all_joined t root s i settled m w = elim (ℕ_discrete m root) [
  | yes q ↦ q
  | no other ↦
      let (x, e) = leads_to_root t root s i (suc (s.stamp m)) m (omega arith) w other in
      absurd (not_working (settled x) e)
]
