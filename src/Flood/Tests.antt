-- ===== src/Flood/Tests.antt =====
-- A query among three peers in a row, of which the last has the file (src/decentralized_peer.cpp).
use native.Mathlib.Decide.{ℕ_discrete}
use cs550_pa.Prelude.{ℕ, ◌≤◌, ◌≡◌, ◌≢◌, refl, arith, ◌&&◌, ◌||◌, ◌==◌, Option, none, some}
use cs550_pa.Flood.{
  Topology, waiting, finished, Edge, unasked, working, replied, Net, put, put_edge, put_row, asks,
  begun, Settled, not_asked, has_reply, from_one, found, forward, answer, return, Run, begin,
  then_step,
}
use cs550_pa.Flood.Covered.{Ends}
use cs550_pa.Flood.Outcome.{run-Ends}
use cs550_pa.Flood.Measure.{InRange, run_length}
use cs550_pa.Flood.Progress.{step_bound, run_length-bound}

abbrev in_a_row : Topology
in_a_row = record {
  neighbor =
      λ n m. (n == 0 && m == 1) || (n == 1 && m == 0) || (n == 1 && m == 2) || (n == 2 && m == 1);
  holds = λ n. n == 2;
}

in_a_row_range : InRange in_a_row 0 3
in_a_row_range = record { first = omega arith; neighbors = λ n m h. ground (arith, h) }

abbrev passed_on : Net
passed_on = record {
  node = put (begun in_a_row 0).node 1 waiting;
  edge = put_row (put_edge (begun in_a_row 0).edge 0 1 working) 1 (asks in_a_row 1 0);
  parent = put (begun in_a_row 0).parent 1 0;
  stamp = put (begun in_a_row 0).stamp 1 1;
  clock = 2;
  result = none;
}

run_passed_on : Run in_a_row 0 passed_on
run_passed_on = then_step _ _ begin (forward 0 1 refl refl refl)

abbrev found_it : Net
found_it = record passed_on {
  node = put passed_on.node 2 finished;
  edge = put_edge passed_on.edge 1 2 (replied (some 2));
}

run_found_it : Run in_a_row 0 found_it
run_found_it = then_step _ _ run_passed_on (found 1 2 refl refl refl)

Settled-but :
    (k : ℕ) (v : Option ℕ) (f : ℕ → Edge)
    → f k ≡ replied v
    → ((x : ℕ) → x ≢ k → f x ≡ unasked)
    → (x : ℕ) → Settled (f x)
Settled-but k v f e h x = elim (ℕ_discrete x k) [
  | yes p ↦ rw (p, e) (has_reply v)
  | no ne ↦ rw (h x ne) not_asked
]

abbrev told : Net
told = record found_it {
  node = put found_it.node 1 finished;
  edge = put_edge found_it.edge 0 1 (replied (some 2));
}

run_told : Run in_a_row 0 told
run_told = then_step _ _ run_found_it (
    answer 1 (some 2) (λ e. omega arith) refl
      (Settled-but 2 (some 2) (found_it.edge 1) refl (λ x ne. ground (arith, ne)))
      (from_one 2 2 refl))

abbrev over_now : Net
over_now = record told { node = put told.node 0 finished; result = some (some 2) }

run_over_now : Run in_a_row 0 over_now
run_over_now = then_step _ _ run_told (
    return (some 2) refl (Settled-but 1 (some 2) (told.edge 0) refl (λ x ne. ground (arith, ne)))
      (from_one 1 2 refl))

run-Ends_example : Ends in_a_row 0 (some 2)
run-Ends_example = run-Ends in_a_row 0 over_now (some 2) refl run_over_now refl

run_length-bound_example : run_length run_over_now ≤ step_bound 3
run_length-bound_example = run_length-bound in_a_row 0 3 over_now refl in_a_row_range run_over_now

-- Two neighbours of the first peer have the file: both of its threads have an answer at the same time.
abbrev two_holders : Topology
two_holders = record {
  neighbor = λ n m. n == 0 && (m == 1 || m == 2);
  holds = λ n. n == 1 || n == 2;
}

abbrev one_answer : Net
one_answer = record (begun two_holders 0) {
  node = put (begun two_holders 0).node 1 finished;
  edge = put_edge (begun two_holders 0).edge 0 1 (replied (some 1));
}

two_answers :
    (s : Net) × Run two_holders 0 s
    × (s.edge 0 1 ≡ replied (some 1))
    × (s.edge 0 2 ≡ replied (some 2))
two_answers = (
  record one_answer {
    node = put one_answer.node 2 finished;
    edge = put_edge one_answer.edge 0 2 (replied (some 2));
  },
  then_step one_answer _ (then_step _ one_answer begin (found 0 1 refl refl refl))
      (found 0 2 refl refl refl),
  refl,
  refl,
)
