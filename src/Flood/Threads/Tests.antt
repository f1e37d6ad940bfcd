-- ===== src/Flood/Threads/Tests.antt =====
-- Three peers that are all neighbours (src/decentralized_peer.cpp).
use cs550_pa.Prelude.{◌≡◌, refl, arith, false, ◌==◌, not, ◌&&◌, ltb, none}
use cs550_pa.Flood.{
  Topology, waiting, working, Net, put, put_edge, put_row, asks, begun, Run, begin, then_step,
  forward,
}
use cs550_pa.Flood.Measure.{InRange}
use cs550_pa.Flood.Threads.{nothing, Crossed, run-Crossed}

abbrev triangle : Topology
triangle = record { neighbor = λ n m. ltb n 3 && (ltb m 3 && not (n == m)); holds = λ n. false }

triangle_range : InRange triangle 0 3
triangle_range = record { first = omega arith; neighbors = λ n m h. ground (arith, h) }

abbrev one_works : Net
one_works = record (begun triangle 0) {
  node = put (begun triangle 0).node 1 waiting;
  edge = put_row (put_edge (begun triangle 0).edge 0 1 working) 1 (asks triangle 1 0);
  parent = put (begun triangle 0).parent 1 0;
  stamp = put (begun triangle 0).stamp 1 1;
  clock = 2;
}

abbrev two_work : Net
two_work = record one_works {
  node = put one_works.node 2 waiting;
  edge = put_row (put_edge one_works.edge 0 2 working) 2 (asks triangle 2 0);
  parent = put one_works.parent 2 0;
  stamp = put one_works.stamp 2 2;
  clock = 3;
}

run_two_work : Run triangle 0 two_work
run_two_work =
    then_step one_works two_work (then_step _ one_works begin (forward 0 1 refl refl refl))
      (forward 0 2 refl refl refl)

crossed : Crossed 0 1 2 two_work
crossed = record {
  not_first = ((λ e. omega (arith, e)), (λ e. omega (arith, e)));
  both_wait = (refl, refl);
  both_asked = (refl, refl);
}

run-Crossed_example : two_work.result ≡ none
run-Crossed_example = run-Crossed triangle 0 1 2 refl run_two_work crossed (nothing two_work)
