-- ===== src/DecentralizedPeer/Tests.antt =====
-- Runs of the model of src/decentralized_peer.cpp.
use mathlib.Core.List.{Memᴰ}
use mathlib.Core.List.Memᴰ
use cs550_pa.Prelude.{
  ℕ, ◌^◌, ◌≡◌, refl, arith, false, none, some, List, [], ◌∷◌, pos, replicate, bits_int, int_bits,
  eq_ℤ, if◌then◌else◌, inl, inr, ◌++◌, ◌↔◌,
}
use cs550_pa.Word.{le_bytes, of_le_bytes, read_int, read_word}
use cs550_pa.Comms.{
  Conn, Msg, Malloc, no_conn, search_index, status_ok, dup_request, createupdt_msg,
}
use cs550_pa.Messages.{create_id_conn, parse_id_str, assign}
use cs550_pa.DecentralizedPeer.{
  World, Store, Peer, bare, get_message_id, answer_once, answer_query, remember, has_file, has_seen,
  broadcast_query, answer_search,
}
use cs550_pa.DecentralizedPeer.Ids.{get_message_id_unique, get_message_id_collides}
use cs550_pa.DecentralizedPeer.Queries.{answer_search-once, at_once, answered}
use cs550_pa.DecentralizedPeer.Replies.{Answering, KeepsReplies}
use cs550_pa.DecentralizedPeer.Alone.{broadcast_query-alone}

abbrev grants : Malloc
grants n = some (replicate n 7)

abbrev conn_of : ℕ → Conn
conn_of n = record { addr = pos n; port = pos 8000; sock = pos 0 }

abbrev name : List ℕ
name = b'f' ∷ []

abbrev peer : Peer
peer = record {
  peer_id = 1;
  message_count = 4;
  file_set = name ∷ [];
  received_queries = [];
  neighbors = conn_of 2 ∷ conn_of 3 ∷ [];
  home = conn_of 1;
}

-- Every neighbour says that the query is a duplicate.
-- The threads make their stores one after the other.
unfoldable one_by_one : List (List Store) → List Store
one_by_one [] = []
one_by_one (t ∷ ts) = t ++ one_by_one ts

abbrev silent : World
silent = record {
  malloc = grants;
  ask = λ c m. bare dup_request;
  files = λ path. none;
  finish = one_by_one;
  junk = no_conn;
}

one_by_one_iff :
    (threads : List (List Store)) (x : Store)
    → Memᴰ x (one_by_one threads) ↔ (xs : List Store) × Memᴰ xs threads × Memᴰ x xs
unfolding one_by_one
one_by_one_iff [] x = (λ h. absurd (Memᴰ.not-nil h), λ p. absurd (Memᴰ.not-nil p.1))
one_by_one_iff (t ∷ ts) x = (
  λ h. elim (Memᴰ.append_cases t h) [
    | inl k ↦ (t, Memᴰ.head refl, k)
    | inr k ↦ let (xs, there, inside) = (one_by_one_iff ts x).0 k in (xs, Memᴰ.tail there, inside)
  ],
  λ p.
      let (xs, h, k) = p in
      elim (Memᴰ.cases_cons h) [
        | inl e ↦ Memᴰ.append_left (one_by_one ts) (rw e at k)
        | inr there ↦ Memᴰ.append_right t ((one_by_one_iff ts x).1 (xs, there, k))
      ],
)

keeps : KeepsReplies silent.finish
keeps = one_by_one_iff

get_message_id_unique_example :
    (peer.peer_id ≡ peer.peer_id) × (peer.message_count ≡ peer.message_count)
get_message_id_unique_example =
    get_message_id_unique peer peer (omega arith) (omega arith) (omega arith) (omega arith) refl

abbrev later : Peer
later = record peer { message_count = 2 ^ 24 }

abbrev next : Peer
next = record peer { peer_id = 2; message_count = 0 }

get_message_id_collides_example : (get_message_id later).0 ≡ (get_message_id next).0
get_message_id_collides_example =
    get_message_id_collides later next refl (omega arith) refl (omega arith)

-- The query of an id for the file.
abbrev query : Msg
query = record { buf = 5 ∷ 0 ∷ 0 ∷ 1 ∷ b'f' ∷ []; size = 5; type = search_index }

query-parses : parse_id_str query ≡ some (pos 16777221, name)
unfolding parse_id_str assign read_int read_word bits_int of_le_bytes
query-parses = refl

query-unseen : has_seen (pos 16777221) peer.received_queries ≡ false
unfolding has_seen
query-unseen = refl

abbrev from_two : Conn
from_two = record { addr = pos 2; port = pos 8000; sock = pos 0 }

abbrev here : Msg
here = record {
  buf = 5 ∷ 0 ∷ 0 ∷ 1 ∷ 1 ∷ 0 ∷ 0 ∷ 0 ∷ 64 ∷ 31 ∷ 0 ∷ 0 ∷ [];
  size = 12;
  type = status_ok;
}

abbrev peer_after : Peer
peer_after = record peer { received_queries = (pos 16777221, from_two) ∷ [] }

query-answered : answer_search silent (conn_of 2) query peer ≡ some (peer_after, here)
unfolding answer_search answer_once answer_query remember create_id_conn createupdt_msg parse_id_str
    assign read_int read_word bits_int of_le_bytes le_bytes int_bits has_file has_seen
query-answered = refl

-- The query of another id, which the peer answers meanwhile.
abbrev query_between : Msg
query_between = record { buf = 6 ∷ 0 ∷ 0 ∷ 1 ∷ b'f' ∷ []; size = 5; type = search_index }

abbrev here_between : Msg
here_between = record {
  buf = 6 ∷ 0 ∷ 0 ∷ 1 ∷ 1 ∷ 0 ∷ 0 ∷ 0 ∷ 64 ∷ 31 ∷ 0 ∷ 0 ∷ [];
  size = 12;
  type = status_ok;
}

abbrev peer_later : Peer
peer_later = record peer {
  received_queries = (pos 16777222, from_two) ∷ (pos 16777221, from_two) ∷ [];
}

between-answered :
    answer_search silent (conn_of 2) query_between peer_after ≡ some (peer_later, here_between)
unfolding answer_search answer_once answer_query remember create_id_conn createupdt_msg parse_id_str
    assign read_int read_word bits_int of_le_bytes le_bytes int_bits has_file has_seen
between-answered = refl

answer_search-once_example :
    answer_search silent (conn_of 3) query peer_later ≡ some (peer_later, bare dup_request)
answer_search-once_example =
    answer_search-once silent silent (conn_of 2) (conn_of 3) query query (pos 16777221) name name
      peer peer_after peer_later here query-parses query-parses query-answered
      (answered peer_after peer_later silent (conn_of 2) query_between here_between at_once
        between-answered)

-- The neighbour 3 names itself as a holder of the file, and the neighbour 2 has seen the query.
abbrev three_has : Msg
three_has = record {
  buf = 5 ∷ 0 ∷ 0 ∷ 1 ∷ 3 ∷ 0 ∷ 0 ∷ 0 ∷ 64 ∷ 31 ∷ 0 ∷ 0 ∷ [];
  size = 12;
  type = status_ok;
}

abbrev helpful : World
helpful = record silent {
  ask = λ (c : Conn) (m : Msg). if eq_ℤ c.addr (pos 3) then three_has else bare dup_request;
}

abbrev IsThree : Conn → Type 0
IsThree c = c ≡ conn_of 3

three-Answering : Answering helpful peer.home query peer (conn_of 3)
three-Answering = record {
  neighbor = Memᴰ.tail (Memᴰ.head refl);
  not_sender = refl;
  answers = refl;
}

only_three : (m : Conn) → Answering helpful peer.home query peer m → m ≡ conn_of 3
only_three m a = elim (Memᴰ.cases_cons a.neighbor) [
  | inl e ↦ absurd (ground (arith, rw e at a.answers))
  | inr r ↦ elim (Memᴰ.cases_cons r) [ inl e ↦ e | inr none_left ↦ absurd (Memᴰ.not-nil none_left) ]
]

broadcast_query-alone_example : broadcast_query helpful peer.home query peer ≡ three_has
broadcast_query-alone_example =
    broadcast_query-alone helpful peer.home query peer (conn_of 3) keeps three-Answering only_three
