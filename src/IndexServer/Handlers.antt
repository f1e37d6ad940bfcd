-- ===== src/IndexServer/Handlers.antt =====
-- What the requests of src/index_server.cpp come to, end to end.
use mathlib.Core.List.{Memᴰ}
use native.Mathlib.Decide.{dec_lt}
use cs550_pa.Prelude.{
  ℕ, ◌-◌, ◌≤◌, ◌<◌, ◌≡◌, refl, arith, false, some, List, [], ◌∷◌, map, inl, inr, eq_ℤ, ge→ltb,
  lt→ltb, length, negsuc, take, ◌%◌,
}
use cs550_pa.Comms.{Conn, Msg, status_bad, status_ok, replication_req, createupdt_msg}
use cs550_pa.Messages.{
  parse_conn, parse_str_conn, parse_str, create_status, create_str_conn, ip_info_size,
}
use cs550_pa.Messages.RoundTrip.{IsEndpoint, moved, parse_conn-create_conn}
use cs550_pa.FileIndex.{FileIndex, add_peer, count_peers, get_rand_peer}
use cs550_pa.FileIndex.Lookup.{peers_of, IsPopulated, add_peer-count, get_rand_peer-Mem}
use cs550_pa.IndexServer.{
  Index, Host, answer, send_to, request_replication, replicate_more, register_file, answer_to,
  search_file,
}
use cs550_pa.IndexServer.Circle.{rotate, keep}
use cs550_pa.IndexServer.Replication.{lacks_file, find_replication_peers-take}

-- The peers that are asked for the replicas that are missing, once `peer` has registered `f`.
abbrev pub chosen : ℕ → List ℕ → Index → List Conn
chosen rand f index =
    take (index.file_index.replication_factor - count_peers f index.file_index)
      (keep (lacks_file f index.file_index) (rotate (rand % length index.peers) index.peers))

replicate_more-chosen :
    (host : Host) (peer : Conn) (f : List ℕ) (index : Index) (m : Msg)
    → count_peers f index.file_index < index.file_index.replication_factor
    → create_str_conn host.malloc f peer replication_req ≡ some m
    → replicate_more host peer f (count_peers f index.file_index) index
      ≡ some (index, map (λ p. send_to p m) (chosen host.rand f index))
unfolding replicate_more request_replication
replicate_more-chosen host peer f index m h e = rw (
  lt→ltb (count_peers f index.file_index) index.file_index.replication_factor h,
  find_replication_peers-take host.rand f
      (index.file_index.replication_factor - count_peers f index.file_index) index,
  e,
)

replicate_more-enough :
    (host : Host) (peer : Conn) (f : List ℕ) (index : Index) (m : Msg)
    → index.file_index.replication_factor ≤ count_peers f index.file_index
    → replicate_more host peer f (count_peers f index.file_index) index
      ≡ some (index, map (λ p. send_to p m) (chosen host.rand f index))
unfolding replicate_more
replicate_more-enough host peer f index m h =
    rw
      (
        ge→ltb (count_peers f index.file_index) index.file_index.replication_factor h,
        none_missing index.file_index.replication_factor (count_peers f index.file_index) h,
      )
      refl
  where
    none_missing : (a b : ℕ) → a ≤ b → a - b ≡ 0
    none_missing a b h = omega arith

-- The index once `peer` has registered `f`.
abbrev pub registered : List ℕ → Conn → Index → Index
registered f peer index = record index { file_index = (add_peer f peer index.file_index).1 }

-- A request that parses to a name and a peer adds the peer to the index under the name, and sends one
-- REPLICATION_REQ, which names the file and the peer, to each of the peers without the file, from a
-- random place of the list on, up to the number of copies that are missing. It sends nothing else, and
-- nothing if no copy is missing.
pub register_file-chosen :
    (host : Host) (m request : Msg) (f : List ℕ) (peer : Conn) (index : Index)
    → parse_str_conn m host.junk ≡ some (f, peer)
    → create_str_conn host.malloc f peer replication_req ≡ some request
    → register_file host m index
      ≡ some (
        registered f peer index,
        map (λ p. send_to p request) (chosen host.rand f (registered f peer index)),
      )
unfolding register_file
register_file-chosen host m request f peer index e q =
    let next = registered f peer index in
    rw (e, add_peer-count f peer index.file_index)
      (elim (dec_lt (count_peers f next.file_index) next.file_index.replication_factor) [
        | yes h ↦ replicate_more-chosen host peer f next request h q
        | no h ↦ replicate_more-enough host peer f next request (omega arith)
      ])

-- A peer that a client can be sent to: its parts are `int`s, and its address is not the -1 that stands
-- for none.
pub record IsPeer (c : Conn) : Type 0 where
  pub endpoint : IsEndpoint c
  pub known : eq_ℤ c.addr (negsuc 0) ≡ false

-- What a search comes to: a bare STATUS_BAD if nobody has registered the file, otherwise STATUS_OK with
-- the endpoint of a peer that has.
pub data Found (f : List ℕ) (old : Conn) (index : FileIndex) (r : Msg) : Type 0 where
  nobody : peers_of f index ≡ [] → r.type ≡ status_bad → Found f old index r
  peer_at :
      (c : Conn)
      → Memᴰ c (peers_of f index)
      → r.type ≡ status_ok
      → parse_conn r old ≡ some (moved c old)
      → Found f old index r

search_file_answer :
    (host : Host) (m r : Msg) (f : List ℕ) (c : Conn) (index : Index)
    → parse_str m ≡ some f
    → get_rand_peer host.rand f index.file_index ≡ some c
    → answer_to host c ≡ some r
    → search_file host m index ≡ some (index, answer r ∷ [])
unfolding search_file
search_file_answer host m r f c index e q a = rw (e, q, a)

-- A request that parses to a name is answered once, on its own connection, and changes nothing. The
-- answer is STATUS_BAD if nobody has registered the file, and otherwise STATUS_OK with the endpoint of a
-- peer that has, whatever `rand` is. The index has no file without a peer, every registered peer has a
-- real endpoint, and `malloc` grants the eight bytes of an answer.
pub search_file-Found :
    (host : Host) (m : Msg) (f raw : List ℕ) (old : Conn) (index : Index)
    → parse_str m ≡ some f
    → IsPopulated index.file_index
    → ((c : Conn) → Memᴰ c (peers_of f index.file_index) → IsPeer c)
    → host.malloc ip_info_size ≡ some raw
    → (r : Msg) × (search_file host m index ≡ some (index, answer r ∷ []))
      × Found f old index.file_index r
unfolding answer_to create_status createupdt_msg
search_file-Found host m f raw old index e v ps h =
    let (c, q, who) = get_rand_peer-Mem host.rand f index.file_index v in
    elim who [
      | inl there ↦
          let p = ps c there in
          let (r, made, _, kind, back) =
            parse_conn-create_conn host.malloc c old status_ok p.endpoint raw h in
          (
            r,
            search_file_answer host m r f c index e q (rw p.known made),
            peer_at c there kind back,
          )
      | inr (none_there, is_none) ↦ (
        record { buf = []; size = 0; type = status_bad },
        search_file_answer host m (record { buf = []; size = 0; type = status_bad }) f c index e q
            (rw is_none refl),
        nobody none_there refl,
      )
    ]
