-- ===== src/Flood/Steps.antt =====
-- Each step of a query in a network of peers keeps what is known of it (src/decentralized_peer.cpp).
use native.Mathlib.Decide.{ℕ_discrete}
use cs550_pa.Prelude.{
  ℕ, ◌+◌, ◌≡◌, ◌≢◌, inl, inr, arith, true, false, ◌&&◌, ◌==◌, none, some, Bool-cases,
}
use cs550_pa.Flood.{
  Topology, idle, waiting, finished, Reply, asked, working, replied, Net, put, put_edge, put_row,
  asks, Settled, Responds, Reach, over,
}
use cs550_pa.Flood.Invariant.{Tree}
use cs550_pa.Flood.Covered.{Cover, Responds-from, Responds-some}

module _ (t : Topology) (root : ℕ) (s : Net) (i : Tree t root s) (c : Cover t root s) where
  Reach-next : (n m : ℕ) → s.edge n m ≡ asked → Reach t root m
  Reach-next n m e =
      over n m (c.reached n (λ q. cc (i.asked_waits n m e, q)))
        (i.no_holder n (i.asked_waits n m e)) (c.linked n m (λ q. cc (e, q)))

  pub Cover-duplicate :
      (n m : ℕ)
      → s.edge n m ≡ asked
      → s.node m ≢ idle
      → Cover t root (record s { edge = put_edge s.edge n m (replied none) })
  Cover-duplicate n m e seen = record {
    reached = c.reached;
    linked = λ x y h. ground (arith, c.linked x y, h, e);
    parent_seen = c.parent_seen;
    covered = λ x y h k l. elim (c.covered x y h k l) [
      | inl known ↦ inl known
      | inr a ↦ elim (Bool-cases (x == n && y == m)) [
        | inl q ↦ inl (λ idles. ground (arith, q, seen, idles))
        | inr q ↦ inr (rw q a)
      ]
    ];
    honest = λ x y h q. c.honest x y h (ground (arith, q));
    kept = λ w h k l.
        let (x, y, z, waits, q) = c.kept w h k l in (x, y, z, waits, ground (arith, e, q));
    ended = c.ended;
  }

  pub Cover-found :
      (n m : ℕ)
      → s.edge n m ≡ asked
      → s.node m ≡ idle
      → t.holds m ≡ true
      → Cover t root
          (record s { node = put s.node m finished; edge = put_edge s.edge n m (replied (some m)) })
  Cover-found n m e new has = record {
    reached = λ x h. elim (ℕ_discrete x m) [
      | yes q ↦ rw q (Reach-next n m e)
      | no ne ↦ c.reached x (λ q. h (ground (arith, q)))
    ];
    linked = λ x y h. c.linked x y (λ q. h (ground (arith, q, e)));
    parent_seen = λ x h. ground (arith, c.parent_seen x, h);
    covered = λ x y h k l. elim (c.covered x y (λ q. h (ground (arith, q, k, has))) k l) [
      | inl known ↦ inl (λ q. ground (arith, q, known))
      | inr a ↦ elim (ℕ_discrete y m) [
        | yes q ↦ inl (λ idles. ground (arith, q, idles))
        | no ne ↦ inr (ground (arith, a, ne))
      ]
    ];
    honest = λ x y h q. elim (ℕ_discrete h m) [
      | yes r ↦ rw r (has, Reach-next n m e)
      | no ne ↦ c.honest x y h (ground (arith, q, ne))
    ];
    kept = λ w h k l. (n, m, m, ground (arith, i.asked_waits n m e, new), ground arith);
    ended = c.ended;
  }

  pub Cover-forward :
      (n m : ℕ)
      → s.edge n m ≡ asked
      → s.node m ≡ idle
      → t.holds m ≡ false
      → Cover t root (record s {
        node = put s.node m waiting;
        edge = put_row (put_edge s.edge n m working) m (asks t m n);
        parent = put s.parent m n;
        stamp = put s.stamp m s.clock;
        clock = s.clock + 1;
      })
  Cover-forward n m e new lacks = record {
    reached = λ x h. elim (ℕ_discrete x m) [
      | yes q ↦ rw q (Reach-next n m e)
      | no ne ↦ c.reached x (λ q. h (ground (arith, q)))
    ];
    linked = λ x y h. elim (ℕ_discrete x m) [
      | yes q ↦ elim (Bool-cases (t.neighbor x y)) [
        | inl is ↦ is
        | inr isnt ↦ absurd (h (ground (arith, q, isnt)))
      ]
      | no ne ↦ c.linked x y (λ un. h (ground (arith, un, ne, e)))
    ];
    parent_seen = λ x h. ground (arith, c.parent_seen x, i.asked_waits n m e, h);
    covered = λ x y h k l. elim (ℕ_discrete x m) [
      | yes q ↦ elim (ℕ_discrete y n) [
        | yes p ↦ inl (λ idles. ground (arith, p, idles, i.asked_waits n m e))
        | no other ↦ inr (ground (arith, q, other, l))
      ]
      | no ne ↦ elim (c.covered x y (λ idles. h (ground (arith, idles, ne))) k l) [
        | inl known ↦ inl (λ idles. ground (arith, idles, known))
        | inr a ↦ elim (ℕ_discrete y m) [
          | yes p ↦ inl (λ idles. ground (arith, p, idles))
          | no other ↦ inr (ground (arith, a, ne, other))
        ]
      ]
    ];
    honest = λ x y h q. c.honest x y h (ground (arith, q));
    kept = λ w h k l.
        let (x, y, z, waits, q) =
          c.kept (ground (arith, w, new, i.root_seen)) h
            (λ idles. k (ground (arith, idles, l, lacks))) l in
        (x, y, z, ground (arith, waits, new), ground (arith, waits, new, q, e));
    ended = c.ended;
  }

  pub Cover-answer :
      (m : ℕ) (r : Reply)
      → m ≢ root
      → s.node m ≡ waiting
      → ((x : ℕ) → Settled (s.edge m x))
      → Responds (s.edge m) r
      → Cover t root (record s {
        node = put s.node m finished;
        edge = put_edge s.edge (s.parent m) m (replied r);
      })
  Cover-answer m r ne w settled q = record {
    reached = λ x h. c.reached x (λ idles. h (ground (arith, idles, w)));
    linked = λ x y h. c.linked x y (λ un. h (ground (arith, un, i.works_for m w ne)));
    parent_seen = λ x h. ground (arith, c.parent_seen x, h);
    covered = λ x y h k l. elim (c.covered x y (λ idles. h (ground (arith, idles, w))) k l) [
      | inl known ↦ inl (λ idles. ground (arith, idles, known))
      | inr a ↦ elim (ℕ_discrete y m) [
        | yes p ↦ inl (λ idles. ground (arith, p, idles))
        | no other ↦ inr (ground (arith, a, other))
      ]
    ];
    honest = λ x y h e. elim (Bool-cases (x == s.parent m && y == m)) [
      | inl p ↦ let (z, f) = Responds-from q h (ground (arith, p, e)) in c.honest m z h f
      | inr p ↦ c.honest x y h (ground (arith, p, e))
    ];
    kept = λ u h k l.
        let (x, y, z, waits, f) =
          c.kept (ground (arith, u)) h (λ idles. k (ground (arith, idles, w))) l in
        elim (ℕ_discrete x m) [
          | yes p ↦
              let (v, rv) = Responds-some q y z (rw p at f) in
              let up = i.works_for m w ne in
              (
                s.parent m,
                m,
                v,
                ground (arith, i.working_waits (s.parent m) m up, i.earlier m w ne),
                ground (arith, rv),
              )
          | no other ↦
              (x, y, z, ground (arith, waits, other), ground (arith, f, i.works_for m w ne))
        ];
    ended = c.ended;
  }
