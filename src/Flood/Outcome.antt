-- ===== src/Flood/Outcome.antt =====
-- What a query in a network of peers comes to (src/decentralized_peer.cpp).
use native.Mathlib.Decide.{ℕ_discrete}
use cs550_pa.Prelude.{ℕ, ◌≡◌, ◌≢◌, inl, inr, arith, false, some, Bool-cases}
use cs550_pa.Flood.{
  Topology, idle, waiting, finished, Reply, Net, put, begun, Settled, Responds, all_duplicates,
  from_one, Step, duplicate, found, forward, answer, return, Reach, at_root, over, Run, begin,
  then_step,
}
use cs550_pa.Flood.Invariant.{Tree, run-Tree, all_joined, not_asking}
use cs550_pa.Flood.Covered.{Ends, at_peer, nowhere_connected, Cover}
use cs550_pa.Flood.Steps.{Cover-duplicate, Cover-found, Cover-forward, Cover-answer}

module _ (t : Topology) (root : ℕ) (s : Net) (i : Tree t root s) (c : Cover t root s) where
  -- With no peer waiting, everything that can be reached has seen the query.
  all_seen :
      ((m : ℕ) → s.node m ≡ waiting → m ≡ root)
      → ((x : ℕ) → Settled (s.edge root x))
      → (m : ℕ) → Reach t root m
      → s.node m ≢ idle
  all_seen alone settled m at_root = i.root_seen
  all_seen alone settled m (over n _ r lacks l) =
      elim (c.covered n m (all_seen alone settled n r) lacks l) [
        | inl seen ↦ seen
        | inr a ↦ absurd (not_asking (settled m) (rw (alone n (i.asked_waits n m a)) at a))
      ]

  return-Ends :
      (r : Reply)
      → ((x : ℕ) → Settled (s.edge root x))
      → s.node root ≡ waiting
      → Responds (s.edge root) r
      → Ends t root r
  return-Ends _ settled w (all_duplicates none_names) =
      let alone = all_joined t root s i settled in
      nowhere_connected t root (λ m reach. elim (Bool-cases (t.holds m)) [
        | inl has ↦
            let (x, y, z, waits, e) = c.kept w m (all_seen alone settled m reach) has in
            absurd (none_names y z (rw (alone x waits) at e))
        | inr lacks ↦ lacks
      ])
  return-Ends _ settled w (from_one m h e) =
      let (has, reach) = c.honest root m h e in at_peer h has reach

  Cover-return :
      (r : Reply)
      → s.node root ≡ waiting
      → ((x : ℕ) → Settled (s.edge root x))
      → Responds (s.edge root) r
      → Cover t root (record s { node = put s.node root finished; result = some r })
  Cover-return r w settled q = record {
    reached = λ x h. c.reached x (λ idles. h (ground (arith, idles, w)));
    linked = c.linked;
    parent_seen = λ x h. ground (arith, c.parent_seen x, h);
    covered = λ x y h k l. elim (c.covered x y (λ idles. h (ground (arith, idles, w))) k l) [
      | inl known ↦ inl (λ idles. ground (arith, idles, known))
      | inr a ↦ inr a
    ];
    honest = c.honest;
    kept = λ u. absurd (ground (arith, u));
    ended = λ v e. let same : r ≡ v = cc in rw (← same) (return-Ends r settled w q);
  }

step-Cover :
    (t : Topology) (root : ℕ) {s s' : Net}
    → Step t root s s'
    → Tree t root s
    → Cover t root s
    → Cover t root s'
step-Cover t root {s} (duplicate n m e seen) i c = Cover-duplicate t root s i c n m e seen
step-Cover t root {s} (found n m e new has) i c = Cover-found t root s i c n m e new has
step-Cover t root {s} (forward n m e new lacks) i c = Cover-forward t root s i c n m e new lacks
step-Cover t root {s} (answer m r ne w settled q) i c = Cover-answer t root s i c m r ne w settled q
step-Cover t root {s} (return r w settled q) i c = Cover-return t root s i c r w settled q

begun-Cover : (t : Topology) (root : ℕ) → t.holds root ≡ false → Cover t root (begun t root)
begun-Cover t root lacks = record {
  reached = λ x h. elim (ℕ_discrete x root) [
    | yes q ↦ rw q at_root
    | no ne ↦ absurd (h (ground (arith, ne)))
  ];
  linked = λ x y h. elim (Bool-cases (t.neighbor x y)) [
    | inl is ↦ is
    | inr isnt ↦ absurd (h (ground (arith, isnt)))
  ];
  parent_seen = λ x h. ground (arith, h);
  covered = λ x y h k l. elim (ℕ_discrete y root) [
    | yes q ↦ inl (λ idles. ground (arith, q, idles))
    | no ne ↦ inr (ground (arith, ne, h, l))
  ];
  honest = λ x y h e. absurd (ground (arith, e));
  kept = λ w h k l. absurd (ground (arith, k, l, lacks));
  ended = λ r e. cc;
}

pub run-Cover :
    (t : Topology) (root : ℕ) {s : Net} → t.holds root ≡ false → Run t root s → Cover t root s
run-Cover t root lacks begin = begun-Cover t root lacks
run-Cover t root lacks (then_step s s' run st) =
    step-Cover t root st (run-Tree t root lacks run) (run-Cover t root lacks run)

-- In whatever order the threads of all the peers go on, a search that has an end names a peer that has
-- the file and can be reached over peers that have not, and ends with no peer only if no peer that is
-- connected to the first has the file. The peer that searches has not got the file, every request and
-- every reply arrives, and no two peers share an address.
pub run-Ends :
    (t : Topology) (root : ℕ) (s : Net) (r : Reply)
    → t.holds root ≡ false
    → Run t root s
    → s.result ≡ some r
    → Ends t root r
run-Ends t root s r lacks run e = (run-Cover t root lacks run).ended r e
