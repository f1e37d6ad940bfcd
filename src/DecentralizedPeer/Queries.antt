-- ===== src/DecentralizedPeer/Queries.antt =====
-- Queries of the peers of src/decentralized_peer.cpp.
use mathlib.Core.List.{Memᴰ}
use mathlib.Core.List.Memᴰ
use cs550_pa.Prelude.{
  ℕ, ◌+◌, ◌≡◌, ◌↔◌, inl, inr, refl, ap, sym, arith, true, false, Option, Option-cases, none, some,
  List, [], ◌∷◌, ℤ, pos, eq_ℤ_iff, IsInt, Bool-cases,
}
use cs550_pa.Comms.{Conn, Msg, dup_request, status_ok, search_index}
use cs550_pa.Messages.{create_id_str, ip_info_size, parse_id_conn, parse_id_str}
use cs550_pa.Messages.RoundTrip.{IsEndpoint, moved, parse_id_conn-create_id_conn}
use cs550_pa.FileIndex.{same_name}
use cs550_pa.FileIndex.Lookup.{same_name_iff}
use cs550_pa.DecentralizedPeer.{
  World, Peer, bare, has_file, has_seen, remember, fixed_port, answer_query, answer_once,
  answer_search, search_neighbors, search_for_file, get_message_id, broadcast_query, read_response,
}

has_seen-remember :
    (id : ℤ) (from : Conn) (peer : Peer)
    → has_seen id (remember id from peer).received_queries ≡ true
unfolding has_seen remember
has_seen-remember id from peer = ground (arith, eq_ℤ_iff id id)

-- The state of a result, if there is one.
abbrev state_of : Peer → Option (Peer × Msg) → Peer
state_of peer none = peer
state_of peer (some r) = r.0

pub answer_once-seen :
    (w : World) (client : Conn) (request : Msg) (id : ℤ) (f : List ℕ) (peer peer' : Peer) (a : Msg)
    → answer_once w client request id f peer ≡ some (peer', a)
    → has_seen id peer'.received_queries ≡ true
unfolding answer_once
answer_once-seen w client request id f peer peer' a e =
    let from : Conn = record { addr = client.addr; port = fixed_port; sock = pos 0 } in
    elim (Bool-cases (has_seen id peer.received_queries)) [
      | inl seen ↦ let same : peer ≡ peer' = ap (state_of peer) (rw seen at e) in rw (← same) seen
      | inr new ↦ elim (Option-cases (answer_query w client request id f peer)) [
        | inl q ↦ cc (rw (new, q) at e)
        | inr (r, q) ↦
            let same : remember id from peer ≡ peer' = ap (state_of peer) (rw (new, q) at e) in
            rw (← same) (has_seen-remember id from peer)
      ]
    ]

answer_once-again :
    (w : World) (client : Conn) (request : Msg) (id : ℤ) (f : List ℕ) (peer : Peer)
    → has_seen id peer.received_queries ≡ true
    → answer_once w client request id f peer ≡ some (peer, bare dup_request)
unfolding answer_once
answer_once-again w client request id f peer h = rw h refl

remember-seen :
    (id other : ℤ) (from : Conn) (peer : Peer)
    → has_seen id peer.received_queries ≡ true
    → has_seen id (remember other from peer).received_queries ≡ true
unfolding has_seen remember
remember-seen id other from peer seen = ground (arith, seen)

answer_once-keeps :
    (w : World) (client : Conn) (request : Msg) (id other : ℤ) (f : List ℕ) (peer peer' : Peer)
    (a : Msg)
    → answer_once w client request other f peer ≡ some (peer', a)
    → has_seen id peer.received_queries ≡ true
    → has_seen id peer'.received_queries ≡ true
unfolding answer_once
answer_once-keeps w client request id other f peer peer' a e seen =
    let from : Conn = record { addr = client.addr; port = fixed_port; sock = pos 0 } in
    elim (Bool-cases (has_seen other peer.received_queries)) [
      | inl old ↦ let same : peer ≡ peer' = ap (state_of peer) (rw old at e) in rw (← same) seen
      | inr new ↦ elim (Option-cases (answer_query w client request other f peer)) [
        | inl q ↦ cc (rw (new, q) at e)
        | inr (r, q) ↦
            let same : remember other from peer ≡ peer' = ap (state_of peer) (rw (new, q) at e) in
            rw (← same) (remember-seen id other from peer seen)
      ]
    ]

answer_search-keeps :
    (w : World) (client : Conn) (request : Msg) (id : ℤ) (peer peer' : Peer) (a : Msg)
    → answer_search w client request peer ≡ some (peer', a)
    → has_seen id peer.received_queries ≡ true
    → has_seen id peer'.received_queries ≡ true
unfolding answer_search
answer_search-keeps w client request id peer peer' a e seen =
    elim (Option-cases (parse_id_str request)) [
      | inl q ↦ cc (rw q at e)
      | inr ((other, f), q) ↦
          answer_once-keeps w client request id other f peer peer' a (rw q at e) seen
    ]

-- The state of a search, if it ends.
abbrev searched_state : Peer → Option (Peer × Conn) → Peer
searched_state peer none = peer
searched_state peer (some r) = r.0

search_neighbors-keeps :
    (w : World) (f : List ℕ) (id : ℤ) (peer peer' : Peer) (c : Conn)
    → search_neighbors w f peer ≡ some (peer', c)
    → has_seen id peer.received_queries ≡ true
    → has_seen id peer'.received_queries ≡ true
unfolding search_neighbors get_message_id
search_neighbors-keeps w f id peer peer' c e seen =
    let issued = get_message_id peer in
    elim (Option-cases (create_id_str w.malloc issued.0 f search_index)) [
      | inl q ↦ cc (rw q at e)
      | inr (request, q) ↦
          elim (Option-cases (read_response w (broadcast_query w peer.home request issued.1))) [
            | inl k ↦ cc (rw (q, k) at e)
            | inr (source, k) ↦
                let same : remember issued.0 peer.home issued.1 ≡ peer' =
                  ap (searched_state peer) (rw (q, k) at e) in
                rw (← same) (remember-seen id issued.0 peer.home issued.1 seen)
          ]
    ]

search_for_file-keeps :
    (w : World) (f : List ℕ) (id : ℤ) (peer peer' : Peer) (c : Conn)
    → search_for_file w f peer ≡ some (peer', c)
    → has_seen id peer.received_queries ≡ true
    → has_seen id peer'.received_queries ≡ true
unfolding search_for_file
search_for_file-keeps w f id peer peer' c e seen = elim (Bool-cases (has_file f peer.file_set)) [
  | inl here ↦ let same : peer ≡ peer' = ap (searched_state peer) (rw here at e) in rw (← same) seen
  | inr away ↦ search_neighbors-keeps w f id peer peer' c (rw away at e) seen
]

-- What a peer becomes by further requests of other peers and searches of its own, in any order.
pub data Later (peer : Peer) : Peer → Type 0 where
  at_once : Later peer peer
  answered :
      (p q : Peer) (w : World) (client : Conn) (request a : Msg)
      → Later peer p
      → answer_search w client request p ≡ some (q, a)
      → Later peer q
  searched :
      (p q : Peer) (w : World) (f : List ℕ) (c : Conn)
      → Later peer p
      → search_for_file w f p ≡ some (q, c)
      → Later peer q

Later-seen :
    (id : ℤ) {peer later : Peer}
    → Later peer later
    → has_seen id peer.received_queries ≡ true
    → has_seen id later.received_queries ≡ true
Later-seen id at_once seen = seen
Later-seen id (answered p q w client request a before e) seen =
    answer_search-keeps w client request id p q a e (Later-seen id before seen)
Later-seen id (searched p q w f c before e) seen =
    search_for_file-keeps w f id p q c e (Later-seen id before seen)

-- Once a peer has answered a request, whichever way, it answers every further request with the same id,
-- from whatever client and whatever it has answered and searched for meanwhile, with a DUP_REQUEST, and
-- stays as it is. The requests parse to their ids and names.
pub answer_search-once :
    (w w' : World) (client client' : Conn) (request request' : Msg) (id : ℤ) (f f' : List ℕ)
    (peer peer' later : Peer) (a : Msg)
    → parse_id_str request ≡ some (id, f)
    → parse_id_str request' ≡ some (id, f')
    → answer_search w client request peer ≡ some (peer', a)
    → Later peer' later
    → answer_search w' client' request' later ≡ some (later, bare dup_request)
unfolding answer_search
answer_search-once w w' client client' request request' id f f' peer peer' later a e e' h since =
    rw e' (
      answer_once-again w' client' request' id f' later
        (Later-seen id since (answer_once-seen w client request id f peer peer' a (rw e at h))))

has_file_iff : (f : List ℕ) (fs : List (List ℕ)) → (has_file f fs ≡ true) ↔ Memᴰ f fs
unfolding has_file
has_file_iff f [] = (λ e. cc, λ m. absurd (Memᴰ.not-nil m))
has_file_iff f (g ∷ fs) = elim (Bool-cases (same_name g f)) [
  | inl same ↦ (λ _. Memᴰ.head (sym ((same_name_iff g f).0 same)), λ _. rw same)
  | inr other ↦ (
    λ e. Memᴰ.tail ((has_file_iff f fs).0 (rw other at e)),
    λ m. rw other (elim (Memᴰ.cases_cons m) [
      | inl e ↦ cc (other, (same_name_iff g f).1 (sym e))
      | inr r ↦ (has_file_iff f fs).1 r
    ]),
  )
]

-- A peer that has the file answers a new query for it itself, without a word to its neighbours: with
-- STATUS_OK, the id of the query and its own endpoint, which the parser reads back. The id and the
-- endpoint's parts are `int`s, and `malloc` grants the twelve bytes.
pub answer_search-here :
    (w : World) (client old : Conn) (request : Msg) (id : ℤ) (f raw : List ℕ) (peer : Peer)
    → parse_id_str request ≡ some (id, f)
    → has_seen id peer.received_queries ≡ false
    → Memᴰ f peer.file_set
    → IsInt id
    → IsEndpoint peer.home
    → w.malloc (ip_info_size + 4) ≡ some raw
    → (peer' : Peer) × (a : Msg) × (answer_search w client request peer ≡ some (peer', a))
      × (a.type ≡ status_ok)
      × (parse_id_conn a old ≡ some (id, moved peer.home old))
unfolding answer_search answer_once answer_query
answer_search-here w client old request id f raw peer e new here int home h =
    let (a, made, _, kind, back) =
      parse_id_conn-create_id_conn w.malloc peer.home old status_ok home id raw int h in
    (
      remember id (record { addr = client.addr; port = fixed_port; sock = pos 0 }) peer,
      a,
      rw (e, new, (has_file_iff f peer.file_set).1 here, made) refl,
      kind,
      back,
    )
