-- ===== src/IndexServer/Replication.antt =====
-- `find_replication_peers` of src/index_server.cpp tries every peer once, in a circle.
use native.Mathlib.Nat.{mod-lt}
use native.Mathlib.Decide.{dec_lt}
use cs550_pa.Prelude.{
  ℕ, zero, suc, ◌+◌, ◌-◌, ◌%◌, ◌≤◌, ◌<◌, ◌≡◌, refl, sym, ap, ◌∙◌, arith, Bool, true, false, not,
  ◌==◌, if◌then◌else◌, suc-eq-zero, some, List, [], ◌∷◌, length, take, drop, get_elem?, drop-length,
  take-length, Bool-cases, inl, inr,
}
use cs550_pa.Comms.{Conn}
use cs550_pa.IndexServer.Circle.{
  rotate, keep, rotate-nil, length-rotate, get_elem?-rotate, drop-get_elem?, mod_small, mod_wrap,
}
use cs550_pa.FileIndex.{FileIndex, contains_peer}
use cs550_pa.IndexServer.{Index, Tried, push_valid, try_peers, collect, find_replication_peers}

module _ (peers : List Conn) (start : ℕ) (lacks : Conn → Bool)
    (in_range : start < length peers) where
  abbrev n : ℕ
  n = length peers

  abbrev ring : List Conn
  ring = rotate start peers

  -- The index at distance `k` from the start.
  abbrev at : ℕ → ℕ
  at k = (start + k) % n

  next_at : (k : ℕ) → k < n → (at k + 1) % n ≡ at (suc k)
  next_at k h = elim (dec_lt (start + k) n) [
    | yes p ↦ ap (λ i. (i + 1) % n) (mod_small (start + k) n p) ∙ ap (λ i. i % n) (omega arith)
    | no p ↦
        ap (λ i. (i + 1) % n) (mod_wrap (start + k) n (omega arith) (omega arith))
        ∙ mod_small (start + k - n + 1) n (omega arith)
        ∙ sym (mod_wrap (start + suc k) n (omega arith) (omega arith) ∙ omega arith)
  ]

  -- The next index is the start after the last peer only.
  wraps : (k : ℕ) → k < n → (at (suc k) == start) ≡ (suc k == n)
  wraps k h = elim (dec_lt (start + suc k) n) [
    | yes p ↦ ground (arith, mod_small (start + suc k) n p)
    | no p ↦ ground (arith, mod_wrap (start + suc k) n (omega arith) (omega arith))
  ]

  -- What a run of the inner loop from distance `k` finds: it passes over peers that have the file, and
  -- stops at distance `d`.
  record Finds (fuel k : ℕ) : Type 0 where
    d : ℕ
    t : Tried
    found : try_peers peers start lacks fuel (at k) ≡ some t
    below : d < n
    next : t.peer_idx ≡ at (suc d)
    last : t.all_tried ≡ (suc d == n)
    valid : t.all_tried ≡ false → t.is_valid ≡ true
    passed : keep lacks (drop k ring) ≡ (
        if t.is_valid
        then t.valid_peer ∷ keep lacks (drop (suc d) ring)
        else keep lacks (drop (suc d) ring))

  finds : (fuel k : ℕ) → k < n → n ≤ k + fuel → Finds fuel k
  unfolding try_peers keep
  finds zero k h e = absurd (omega arith)
  finds (suc fuel) k h e =
      let (x, here, cut) = drop-get_elem? k ring (omega (arith, length-rotate start peers)) in
      let there : get_elem? peers (at k) ≡ some x =
        sym (get_elem?-rotate start k peers in_range h) ∙ here in
      elim (Bool-cases (suc k == n)) [
        | inl final ↦ record {
          d = k;
          t = record {
            valid_peer = x;
            is_valid = lacks x;
            peer_idx = (at k + 1) % n;
            all_tried = true;
          };
          found = rw (there, next_at k h, wraps k h, final, try_peers);
          below = h;
          next = next_at k h;
          last = sym final;
          valid = λ q. cc;
          passed = rw cut;
        }
        | inr more ↦ elim (Bool-cases (lacks x)) [
          | inl good ↦ record {
            d = k;
            t = record {
              valid_peer = x;
              is_valid = true;
              peer_idx = (at k + 1) % n;
              all_tried = false;
            };
            found = rw (there, next_at k h, wraps k h, more, good, try_peers);
            below = h;
            next = next_at k h;
            last = sym more;
            valid = λ q. refl;
            passed = rw (cut, good);
          }
          | inr bad ↦
              let r = finds fuel (suc k) (ground arith) (omega arith) in
              record {
                d = r.d;
                t = r.t;
                found = rw (there, next_at k h, wraps k h, more, bad, try_peers) r.found;
                below = r.below;
                next = r.next;
                last = r.last;
                valid = r.valid;
                passed = rw (cut, bad) r.passed;
              }
        ]
      ]

  collect_last :
      (rounds idx : ℕ) (t : Tried)
      → try_peers peers start lacks n idx ≡ some t
      → t.all_tried ≡ true
      → collect peers start lacks (suc rounds) idx ≡ some (push_valid peers start lacks t [])
  unfolding collect
  collect_last rounds idx t e final = rw (e, collect, final)

  collect_more :
      (rounds idx : ℕ) (t : Tried) (rest : List Conn)
      → try_peers peers start lacks n idx ≡ some t
      → t.all_tried ≡ false
      → collect peers start lacks rounds t.peer_idx ≡ some rest
      → collect peers start lacks (suc rounds) idx ≡ some (push_valid peers start lacks t rest)
  unfolding collect
  collect_more rounds idx t rest e more later = rw (e, collect, more, later)

  -- With nothing left in the circle, or with a peer that was taken.
  take-last :
      (rounds d : ℕ) (t : Tried)
      → n ≤ suc d
      → push_valid peers start lacks t []
        ≡ take (suc rounds) (
            if t.is_valid
            then t.valid_peer ∷ keep lacks (drop (suc d) ring)
            else keep lacks (drop (suc d) ring))
  unfolding keep
  take-last rounds d t h =
      rw (drop-length (suc d) ring (omega (arith, length-rotate start peers)))
        (elim (Bool-cases t.is_valid) [
          | inl good ↦ rw good (ap (◌∷◌ t.valid_peer) (sym (take-length rounds [] (omega arith))))
          | inr bad ↦ rw bad
        ])

  collect-take :
      (rounds k : ℕ)
      → k < n
      → collect peers start lacks rounds (at k) ≡ some (take rounds (keep lacks (drop k ring)))
  collect-take zero k h = unfold collect in refl
  collect-take (suc rounds) k h =
      let r = finds n k h (omega arith) in
      elim (Bool-cases r.t.all_tried) [
        | inl final ↦
            collect_last rounds (at k) r.t r.found final
            ∙ ap some (take-last rounds r.d r.t (all_of r.d r.t final r.last))
            ∙ ap (λ xs. some (take (suc rounds) xs)) (sym r.passed)
        | inr more ↦
            collect_more rounds (at k) r.t (take rounds (keep lacks (drop (suc r.d) ring))) r.found
              more
              (ap (collect peers start lacks rounds) r.next
                ∙ collect-take rounds (suc r.d) (not_all r.d r.t more r.last r.below))
            ∙ rw r.passed (rw (r.valid more))
      ]
    where
      all_of : (d : ℕ) (t : Tried) → t.all_tried ≡ true → t.all_tried ≡ (suc d == n) → n ≤ suc d
      all_of d t e f = ground arith

      not_all :
          (d : ℕ) (t : Tried) → t.all_tried ≡ false → t.all_tried ≡ (suc d == n) → d < n → suc d < n
      not_all d t e f h = ground arith

collect_all :
    (peers : List Conn) (lacks : Conn → Bool) (rand num : ℕ)
    → (if length peers == 0
        then some []
        else collect peers (rand % length peers) lacks num (rand % length peers))
      ≡ some (take num (keep lacks (rotate (rand % length peers) peers)))
unfolding keep
collect_all [] lacks rand num =
    rw (rotate-nil (rand % 0)) (ap some (sym (take-length num [] (omega arith))))
collect_all (p ∷ ps) lacks rand num =
    let size = length (p ∷ ps) in
    let start = rand % size in
    let inside : start < size = mod-lt rand (omega arith) in
    rw (suc-eq-zero (length ps)) (
      ap (collect (p ∷ ps) start lacks num)
        (sym (ap (λ i. i % size) (omega arith) ∙ mod_small start size inside))
      ∙ collect-take (p ∷ ps) start lacks inside num 0 (omega arith))

-- A peer lacks a file unless the very connection is registered for it.
abbrev pub lacks_file : List ℕ → FileIndex → Conn → Bool
lacks_file filename index peer = not (contains_peer filename peer index)

-- For any value of `rand` the loops end and no index is out of range: the result is the first `num`
-- peers without the file, in the order of the list from a random place on and round to it.
pub find_replication_peers-take :
    (rand : ℕ) (filename : List ℕ) (num : ℕ) (index : Index)
    → find_replication_peers rand filename num index
      ≡ some (
          take num (
            keep
              (lacks_file filename index.file_index)
              (rotate (rand % length index.peers) index.peers)))
unfolding find_replication_peers
find_replication_peers-take rand filename num index =
    collect_all index.peers (lacks_file filename index.file_index) rand num
