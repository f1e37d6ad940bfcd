-- ===== src/FileIndex/Refines.antt =====
-- What the index of src/file_index.cpp promises to its callers: it is a function from names to the peers
-- registered for them, whatever calls are made of it.
use cs550_pa.Prelude.{
  ℕ, ◌+◌, ◌%◌, ◌<◌, ◌≡◌, refl, ap, ◌∙◌, arith, Bool, if◌then◌else◌, Option, some, List, [], ◌∷◌,
  ◌++◌, length, get_elem?, Option-cases, inl, inr,
}
use cs550_pa.Comms.{Conn, no_conn}
use cs550_pa.FileIndex.{
  same_name, FileIndex, init, find, count_peers, add_peer, get_rand_peer, any_same, contains_peer,
}
use cs550_pa.FileIndex.Lookup.{
  peers_of, peers_of-add_peer, count_peers-length, add_peer-suc, IsPopulated, init-IsPopulated,
  add_peer-IsPopulated,
}

-- A call, with what `rand` gives to it.
pub data Call : Type 0 where
  add : List ℕ → Conn → Call
  count : List ℕ → Call
  rand_peer : ℕ → List ℕ → Call
  contains : List ℕ → Conn → Call

-- What a call returns; no peer where `at` throws.
pub data Returned : Type 0 where
  number : ℕ → Returned
  peer : Option Conn → Returned
  truth : Bool → Returned

abbrev call : Call → FileIndex → Returned × FileIndex
call (add filename p) index = let (n, index') = add_peer filename p index in (number n, index')
call (count filename) index = (number (count_peers filename index), index)
call (rand_peer r filename) index = (peer (get_rand_peer r filename index), index)
call (contains filename p) index = (truth (contains_peer filename p index), index)

unfoldable pub calls : List Call → FileIndex → List Returned
calls [] index = []
calls (c ∷ cs) index = let (r, index') = call c index in r ∷ calls cs index'

-- The specification: the peers of every name.
abbrev pub Registry : Type 0
Registry = List ℕ → List Conn

abbrev pub nothing_registered : Registry
nothing_registered filename = []

abbrev register : Registry → List ℕ → Conn → Registry
register peers filename p name =
    if same_name filename name then peers name ++ p ∷ [] else peers name

abbrev pick : ℕ → List Conn → Option Conn
pick r [] = some no_conn
pick r (p ∷ ps) = get_elem? (p ∷ ps) (r % length (p ∷ ps))

abbrev promised : Call → Registry → Returned × Registry
promised (add filename p) peers = (number (length (peers filename) + 1), register peers filename p)
promised (count filename) peers = (number (length (peers filename)), peers)
promised (rand_peer r filename) peers = (peer (pick r (peers filename)), peers)
promised (contains filename p) peers = (truth (any_same (peers filename) p), peers)

unfoldable pub promises : List Call → Registry → List Returned
promises [] peers = []
promises (c ∷ cs) peers = let (r, peers') = promised c peers in r ∷ promises cs peers'

-- The index shows the registry.
record Shows (index : FileIndex) (peers : Registry) : Type 0 where
  populated_index : IsPopulated index
  shown : (filename : List ℕ) → peers_of filename index ≡ peers filename

get_rand_peer-pick :
    (r : ℕ) (k : List ℕ) (index : FileIndex)
    → IsPopulated index
    → get_rand_peer r k index ≡ pick r (peers_of k index)
unfolding get_rand_peer peers_of
get_rand_peer-pick r k index h = elim (Option-cases (find k index.file_peer_map)) [
  | inl e ↦ rw (e, get_rand_peer, peers_of) refl
  | inr (ps, e) ↦ picked ps e (h.populated k ps e)
]
  where
    picked :
        (ps : List Conn)
        → find k index.file_peer_map ≡ some ps
        → 0 < length ps
        → get_rand_peer r k index ≡ pick r (peers_of k index)
    picked [] e some_there = absurd (omega arith)
    picked (p ∷ ps) e some_there = rw (e, get_rand_peer, peers_of) refl

contains_peer-any_same :
    (k : List ℕ) (p : Conn) (index : FileIndex)
    → contains_peer k p index ≡ any_same (peers_of k index) p
unfolding contains_peer peers_of any_same
contains_peer-any_same k p index = elim (Option-cases (find k index.file_peer_map)) [
  | inl e ↦ rw (e, contains_peer, peers_of) refl
  | inr (ps, e) ↦ rw (e, contains_peer, peers_of) refl
]

call-promised :
    (c : Call) (index : FileIndex) (peers : Registry)
    → Shows index peers
    → ((call c index).0 ≡ (promised c peers).0) × Shows (call c index).1 (promised c peers).1
call-promised (add k p) index peers h = (
  ap number (add_peer-suc k p index ∙ rw (count_peers-length k index, h.shown k) refl),
  record {
    populated_index = add_peer-IsPopulated k p index h.populated_index;
    shown = λ j. rw (peers_of-add_peer k j p index, h.shown j) refl;
  },
)
call-promised (count k) index peers h =
    (ap number (count_peers-length k index ∙ ap length (h.shown k)), h)
call-promised (rand_peer r k) index peers h =
    (ap peer (get_rand_peer-pick r k index h.populated_index ∙ ap (pick r) (h.shown k)), h)
call-promised (contains k p) index peers h =
    (ap truth (contains_peer-any_same k p index ∙ ap (λ ps. any_same ps p) (h.shown k)), h)

calls-promises_from :
    (cs : List Call) (index : FileIndex) (peers : Registry)
    → Shows index peers
    → calls cs index ≡ promises cs peers
unfolding calls promises
calls-promises_from [] index peers h = refl
calls-promises_from (c ∷ cs) index peers h =
    let (e, h') = call-promised c index peers h in
    rw (e, calls-promises_from cs (call c index).1 (promised c peers).1 h') refl

-- Any calls of the four methods on a new index return what the registry promises: `add_peer` and
-- `count_peers` the numbers of peers, `get_rand_peer` the peer at the place that `rand` gives, or
-- {-1, -1, -1} and never an exception, and `contains_peer` whether the connection is among them.
pub calls-promises : (cs : List Call) → calls cs init ≡ promises cs nothing_registered
unfolding peers_of find
calls-promises cs =
    calls-promises_from cs init nothing_registered
      (record { populated_index = init-IsPopulated; shown = λ k. refl })
