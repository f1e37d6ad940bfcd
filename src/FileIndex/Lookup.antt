-- ===== src/FileIndex/Lookup.antt =====
-- The index of src/file_index.cpp seen as a function from names to the peers registered for them, oldest
-- first, and what each method is on that view.
use native.Mathlib.Nat.{mod-lt}
use mathlib.Core.List.{Memᴰ}
use mathlib.Core.List.Memᴰ
use cs550_pa.Prelude.{
  ℕ, zero, suc, ◌+◌, ◌%◌, ◌<◌, ◌≡◌, ◌↔◌, ◌⊎◌, inl, inr, refl, sym, ap, ◌∙◌, arith, true, eq_ℤ_iff,
  if◌then◌else◌, none, some, List, [], ◌∷◌, ◌++◌, length, length-append, get_elem?, Option-cases,
  Bool-cases,
}
use cs550_pa.Comms.{Conn, no_conn}
use cs550_pa.FileIndex.{
  same_name, PeerMap, FileIndex, init, find, push_peer, count_peers, add_peer, get_rand_peer,
  same_conn, any_same, contains_peer,
}

pub same_name_iff : (a b : List ℕ) → (same_name a b ≡ true) ↔ (a ≡ b)
same_name_iff [] [] = ground arith
same_name_iff [] (b ∷ bs) = (λ e. cc, λ e. cc)
same_name_iff (a ∷ as') [] = (λ e. cc, λ e. cc)
same_name_iff (a ∷ as') (b ∷ bs) = ground (arith, same_name_iff as' bs)

same_conn_iff : (p q : Conn) → (same_conn p q ≡ true) ↔ (p ≡ q)
same_conn_iff p q =
    ground (arith, eq_ℤ_iff p.addr q.addr, eq_ℤ_iff p.port q.port, eq_ℤ_iff p.sock q.sock)

-- The peers that have registered a file.
unfoldable pub peers_of : List ℕ → FileIndex → List Conn
peers_of filename index = elim (find filename index.file_peer_map) [
  | none ↦ []
  | some peers ↦ peers
]

find-push_peer :
    (k j : List ℕ) (p : Conn) (entries : PeerMap)
    → find j (push_peer k p entries) ≡ (
        if same_name k j
        then elim (find j entries) [ none ↦ none | some peers ↦ some (peers ++ p ∷ []) ]
        else find j entries)
unfolding find push_peer
find-push_peer k j p [] = ground arith
find-push_peer k j p ((name, peers) ∷ entries) = ground (
  arith,
  find-push_peer k j p entries,
  same_name_iff k j,
  same_name_iff name j,
  same_name_iff name k,
)

-- `add_peer` puts the peer at the end of the list of its file, and changes the list of no other file.
pub peers_of-add_peer :
    (k j : List ℕ) (p : Conn) (index : FileIndex)
    → peers_of j (add_peer k p index).1
      ≡ (if same_name k j then peers_of j index ++ p ∷ [] else peers_of j index)
unfolding peers_of add_peer find
peers_of-add_peer k j p index = elim (Option-cases (find k index.file_peer_map)) [
  | inl e ↦ ground (arith, e, same_name_iff k j)
  | inr (ps, e) ↦ ground (arith, e, find-push_peer k j p index.file_peer_map, same_name_iff k j)
]

-- The count is the length of the list.
pub count_peers-length :
    (k : List ℕ) (index : FileIndex) → count_peers k index ≡ length (peers_of k index)
unfolding count_peers peers_of
count_peers-length k index = ground arith

-- `add_peer` returns how many peers are registered for the file then.
pub add_peer-count :
    (k : List ℕ) (p : Conn) (index : FileIndex)
    → (add_peer k p index).0 ≡ count_peers k (add_peer k p index).1
unfolding add_peer find
add_peer-count k p index = ground (arith, same_name_iff k k)

-- `add_peer` returns one more than the number of peers that were registered for the file before.
pub add_peer-suc :
    (k : List ℕ) (p : Conn) (index : FileIndex) → (add_peer k p index).0 ≡ count_peers k index + 1
add_peer-suc k p index =
    add_peer-count k p index
    ∙ count_peers-length k (add_peer k p index).1
    ∙ ap length (peers_of-add_peer k k p index)
    ∙ rw ((same_name_iff k k).1 refl)
        (length-append (peers_of k index) (p ∷ []) ∙ omega (arith, count_peers-length k index))

pub any_same_iff : (peers : List Conn) (p : Conn) → (any_same peers p ≡ true) ↔ Memᴰ p peers
unfolding any_same
any_same_iff [] p = (λ e. cc, λ m. absurd (Memᴰ.not-nil m))
any_same_iff (q ∷ peers) p = elim (Bool-cases (same_conn q p)) [
  | inl same ↦ (λ _. Memᴰ.head (sym ((same_conn_iff q p).0 same)), λ _. rw same)
  | inr other ↦ (
    λ e. Memᴰ.tail ((any_same_iff peers p).0 (rw other at e)),
    λ m. rw other (elim (Memᴰ.cases_cons m) [
      | inl e ↦ cc (other, (same_conn_iff q p).1 (sym e))
      | inr r ↦ (any_same_iff peers p).1 r
    ]),
  )
]

-- `contains_peer` says whether the very connection, socket included, is registered for the file.
pub contains_peer_iff :
    (k : List ℕ) (p : Conn) (index : FileIndex)
    → (contains_peer k p index ≡ true) ↔ Memᴰ p (peers_of k index)
unfolding contains_peer peers_of
contains_peer_iff k p index = elim (Option-cases (find k index.file_peer_map)) [
  | inl e ↦ rw (e, contains_peer, peers_of) (λ q. cc, λ m. absurd (Memᴰ.not-nil m))
  | inr (ps, e) ↦ rw (e, contains_peer, peers_of) (any_same_iff ps p)
]

-- Every file of the map has a peer.
pub record IsPopulated (index : FileIndex) : Type 0 where
  pub populated :
      (k : List ℕ) (ps : List Conn) → find k index.file_peer_map ≡ some ps → 0 < length ps

pub init-IsPopulated : IsPopulated init
unfolding find
init-IsPopulated = record { populated = λ k ps e. cc }

-- If every file of the map has a peer, the same holds after `add_peer`.
pub add_peer-IsPopulated :
    (k : List ℕ) (p : Conn) (index : FileIndex)
    → IsPopulated index
    → IsPopulated (add_peer k p index).1
unfolding add_peer find
add_peer-IsPopulated k p index h = record {
  populated = λ j ps e. elim (Option-cases (find k index.file_peer_map)) [
    | inl missing ↦ ground (arith, missing, h.populated j ps, same_name_iff k j)
    | inr (qs, there) ↦
        let here = find-push_peer k j p index.file_peer_map in
        elim (Option-cases (find j index.file_peer_map)) [
          | inl f ↦ ground (arith, there, here, f)
          | inr (rs, f) ↦
              ground (arith, there, here, f, h.populated j rs f, length-append rs (p ∷ []))
        ]
  ];
}

get_elem?-Mem :
    (ps : List Conn) (i : ℕ) → i < length ps → (c : Conn) × (get_elem? ps i ≡ some c) × Memᴰ c ps
get_elem?-Mem [] i h = absurd (omega arith)
get_elem?-Mem (p ∷ ps) zero h = (p, refl, Memᴰ.head refl)
get_elem?-Mem (p ∷ ps) (suc i) h =
    let (c, e, m) = get_elem?-Mem ps i (omega arith) in (c, e, Memᴰ.tail m)

-- If every file of the map has a peer, `get_rand_peer` returns whatever `rand` gives: a peer registered
-- for the file, or {-1, -1, -1} when there is none.
pub get_rand_peer-Mem :
    (rand : ℕ) (k : List ℕ) (index : FileIndex)
    → IsPopulated index
    → (c : Conn) × (get_rand_peer rand k index ≡ some c)
      × (Memᴰ c (peers_of k index) ⊎ (peers_of k index ≡ []) × (c ≡ no_conn))
unfolding get_rand_peer peers_of
get_rand_peer-Mem rand k index h = elim (Option-cases (find k index.file_peer_map)) [
  | inl e ↦ rw (e, get_rand_peer, peers_of) (no_conn, refl, inr (refl, refl))
  | inr (ps, e) ↦
      let (c, at, m) = get_elem?-Mem ps (rand % length ps) (mod-lt rand (h.populated k ps e)) in
      rw (e, get_rand_peer, peers_of) (c, at, inl m)
]
