-- ===== src/Flood/Threads.antt =====
-- How many threads the peers of src/decentralized_peer.cpp need. A peer serves its requests by the pool of
-- src/thread_pool.cpp, of which one thread runs the loop of the server; `threads` counts the others.
mod Tests
use native.Mathlib.Decide.{ℕ_discrete}
use cs550_pa.Prelude.{
  ℕ, zero, suc, ◌+◌, ◌<◌, ◌≤◌, ◌≡◌, ◌≢◌, ◌⊎◌, inl, inr, refl, sym, ap, ◌∙◌, arith, Bool, true,
  false, ◌&&◌, ◌==◌, not, if◌then◌else◌, Option, none, some,
}
use cs550_pa.Flood.{
  Topology, Node, idle, waiting, finished, Reply, Edge, unasked, asked, working, replied, Net, put,
  put_edge, put_row, asks, begun, Settled, not_asked, has_reply, Responds, Step, duplicate, found,
  forward, answer, return, Run, begin, then_step,
}
use cs550_pa.Flood.Invariant.{Tree, run-Tree, leads_to_root, not_asking}
use cs550_pa.Flood.Covered.{Ends}
use cs550_pa.Flood.Measure.{InRange}
use cs550_pa.Flood.Progress.{Leads, here, go_on, run-Completes}

-- The threads of a peer that are taken: a peer that works on a request of another waits in one. The first
-- peer waits in a thread of its own.
abbrev pub taken : Node → ℕ
taken idle = 0
taken waiting = 1
taken finished = 0

abbrev pub busy : Net → ℕ → ℕ → ℕ
busy s root m = if m == root then 0 else taken (s.node m)

-- A request is served by a thread that is free.
abbrev pub HasThread :
    (threads : ℕ) (t : Topology) (root : ℕ) {s s' : Net} → Step t root s s' → Type 0
HasThread threads t root {s} (duplicate n m a seen) = busy s root m < threads
HasThread threads t root {s} (found n m a new has) = busy s root m < threads
HasThread threads t root {s} (forward n m a new lacks) = busy s root m < threads
HasThread threads t root {s} (answer m r ne w settled q) = Unit
HasThread threads t root {s} (return r w settled q) = Unit

-- A way on that the threads allow.
pub data Served (threads : ℕ) (t : Topology) (root : ℕ) : Net → Net → Type 0 where
  nothing : (s : Net) → Served threads t root s s
  serve :
      (s s' s'' : Net) (st : Step t root s s')
      → HasThread threads t root st
      → Served threads t root s' s''
      → Served threads t root s s''

busy-le : (s : Net) (root m : ℕ) → busy s root m ≤ 1
busy-le s root m = ground arith

enough :
    (threads : ℕ) (t : Topology) (root : ℕ) {s s' : Net}
    → 2 ≤ threads
    → (st : Step t root s s') → HasThread threads t root st
enough threads t root {s} h (duplicate n m a seen) = omega (arith, busy-le s root m)
enough threads t root {s} h (found n m a new has) = omega (arith, busy-le s root m)
enough threads t root {s} h (forward n m a new lacks) = omega (arith, busy-le s root m)
enough threads t root h (answer m r ne w settled q) = tt
enough threads t root h (return r w settled q) = tt

Leads-Served :
    (threads : ℕ) (t : Topology) (root : ℕ) {s s' : Net}
    → 2 ≤ threads
    → Leads t root s s'
    → Served threads t root s s'
Leads-Served threads t root h (here s) = nothing s
Leads-Served threads t root h (go_on s s' s'' st way) =
    serve s s' s'' st (enough threads t root h st) (Leads-Served threads t root h way)

-- With two threads for requests at every peer and no other search in the network, a search among finitely
-- many peers goes on to a result, which is right: the search itself takes one thread of a peer at a time.
pub run-Served :
    (threads : ℕ) (t : Topology) (root size : ℕ) (s : Net)
    → 2 ≤ threads
    → t.holds root ≡ false
    → InRange t root size
    → Run t root s
    → (s' : Net) × (r : Reply) × Served threads t root s s' × (s'.result ≡ some r) × Ends t root r
run-Served threads t root size s h lacks b run =
    let (s', r, way, e, ends) = run-Completes t root size s lacks b run in
    (s', r, Leads-Served threads t root h way, e, ends)

-- Two peers that work on requests have asked each other.
pub record Crossed (root n m : ℕ) (s : Net) : Type 0 where
  pub not_first : (n ≢ root) × (m ≢ root)
  pub both_wait : (s.node n ≡ waiting) × (s.node m ≡ waiting)
  pub both_asked : (s.edge n m ≡ asked) × (s.edge m n ≡ asked)

module _ (t : Topology) (root n m : ℕ) where
  step-Crossed :
      {s s' : Net} (st : Step t root s s')
      → HasThread 1 t root st
      → Crossed root n m s
      → Crossed root n m s'
  step-Crossed {s} (duplicate x y a seen) h c = record {
    not_first = c.not_first;
    both_wait = c.both_wait;
    both_asked = ground (arith, h, c.not_first, c.both_wait, c.both_asked);
  }
  step-Crossed {s} (found x y a new has) h c = record {
    not_first = c.not_first;
    both_wait = ground (arith, new, c.both_wait);
    both_asked = ground (arith, new, c.both_wait, c.both_asked);
  }
  step-Crossed {s} (forward x y a new lacks) h c = record {
    not_first = c.not_first;
    both_wait = ground (arith, new, c.both_wait);
    both_asked = ground (arith, new, c.both_wait, c.both_asked);
  }
  step-Crossed {s} (answer y r ne w settled q) h c = record {
    not_first = c.not_first;
    both_wait =
        ground (arith, c.both_wait, c.both_asked, not_asking (settled n), not_asking (settled m));
    both_asked =
        ground (arith, c.both_wait, c.both_asked, not_asking (settled n), not_asking (settled m));
  }
  step-Crossed {s} (return r w settled q) h c = record {
    not_first = c.not_first;
    both_wait = ground (arith, c.not_first, c.both_wait);
    both_asked = c.both_asked;
  }

-- A search that has a result has left its first peer.
run_over :
    (t : Topology) (root : ℕ) {s : Net} {r : Reply}
    → t.holds root ≡ false
    → Run t root s
    → s.result ≡ some r
    → s.node root ≡ finished
run_over t root lacks begin e = cc
run_over t root lacks (then_step s s' run (duplicate x y a seen)) e = run_over t root lacks run e
run_over t root lacks (then_step s s' run (found x y a new has)) e =
    ground (arith, run_over t root lacks run e)
run_over t root lacks (then_step s s' run (forward x y a new no_file)) e =
    ground (arith, new, run_over t root lacks run e)
run_over t root lacks (then_step s s' run (answer y r ne w settled q)) e =
    ground (arith, run_over t root lacks run e)
run_over t root lacks (then_step s s' run (return r w settled q)) e = ground arith

Crossed-open :
    (t : Topology) (root n m : ℕ) {s : Net}
    → t.holds root ≡ false
    → Run t root s
    → Crossed root n m s
    → s.result ≡ none
Crossed-open t root n m {s} lacks run c = no_result s.result refl
  where
    no_result : (o : Option Reply) → s.result ≡ o → s.result ≡ none
    no_result none e = e
    no_result (some r) e =
        let i = run-Tree t root lacks run in
        let (x, e') =
          leads_to_root t root s i (suc (s.stamp n)) n (omega arith) c.both_wait.0 c.not_first.0 in
        cc (i.working_waits root x e', run_over t root lacks run e)

-- With one thread for requests at every peer, a search in which two peers that work on requests have asked
-- each other never comes to a result, whatever the threads do: each waits for the other to reply, and
-- has no thread that could.
pub run-Crossed :
    (t : Topology) (root n m : ℕ) {s s' : Net}
    → t.holds root ≡ false
    → Run t root s
    → Crossed root n m s
    → Served 1 t root s s'
    → s'.result ≡ none
run-Crossed t root n m lacks run c (nothing s) = Crossed-open t root n m lacks run c
run-Crossed t root n m lacks run c (serve s s' s'' st h way) =
    run-Crossed t root n m lacks (then_step s s' run st) (step-Crossed t root n m st h c) way
