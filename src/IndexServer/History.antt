-- ===== src/IndexServer/History.antt =====
-- Any sequence of requests to the index server (src/index_server.cpp).
use cs550_pa.Prelude.{
  ℕ, ◌≤◌, ◌≡◌, refl, ◌∙◌, arith, none, some, List, [], ◌∷◌, ◌++◌, Bool-cases, Option-cases, inl,
  inr, eq_ℤ, ge→ltb,
}
use cs550_pa.Comms
use cs550_pa.Comms.{Conn, Msg}
use cs550_pa.Messages.{◌>>=◌, parse_conn, parse_str_conn, parse_str}
use cs550_pa.FileIndex
use cs550_pa.FileIndex.{FileIndex, add_peer, count_peers, get_rand_peer}
use cs550_pa.FileIndex.Lookup.{IsPopulated, init-IsPopulated, add_peer-IsPopulated, add_peer-suc}
use cs550_pa.IndexServer.{
  Index, Host, Effect, answer, send_to, Step, register_user, replicate_more, register_file,
  answer_to, search_file, message_handler,
}

-- The server as it starts.
abbrev pub start : Index
start = record { peers = []; file_index = FileIndex.init }

-- The requests one after the other, with all that is sent.
unfoldable pub serve : List (Host × Msg) → Index → Step
serve [] index = some (index, [])
serve ((host, request) ∷ requests) index = do
  (index', sent) ← message_handler host request index
  (last, more) ← serve requests index'
  some (last, sent ++ more)

-- Every file of the index has a peer, and the replication factor is the one that it started with.
pub record Inv (index : Index) : Type 0 where
  pub files : IsPopulated index.file_index
  pub factor : index.file_index.replication_factor ≡ 1

-- An answer to the client that asked.
abbrev pub Answers : List Effect → Type 0
Answers [] = Unit {0}
Answers (answer m ∷ es) = Answers es
Answers (send_to c m ∷ es) = ⊥

Answers-append : (xs ys : List Effect) → Answers xs → Answers ys → Answers (xs ++ ys)
Answers-append [] ys h k = k
Answers-append (answer m ∷ xs) ys h k = Answers-append xs ys h k
Answers-append (send_to c m ∷ xs) ys h k = elim h [ ]

factor-add_peer :
    (f : List ℕ) (p : Conn) (index : FileIndex)
    → (add_peer f p index).1.replication_factor ≡ index.replication_factor
unfolding add_peer
factor-add_peer f p index = ground arith

-- With a factor of 1 the peer that has just registered is enough.
replicate_more_none :
    (host : Host) (peer : Conn) (f : List ℕ) (n : ℕ) (index : Index)
    → index.file_index.replication_factor ≡ 1
    → 1 ≤ n
    → replicate_more host peer f n index ≡ some (index, [])
unfolding replicate_more
replicate_more_none host peer f n index e h =
    rw (ge→ltb n index.file_index.replication_factor (omega arith))

-- What a handler keeps: the invariant, and that it only answers.
abbrev Keeps : Step → Type 0
Keeps none = Unit {0}
Keeps (some (index, sent)) = Inv index × Answers sent

register_user-Keeps :
    (host : Host) (m : Msg) (index : Index) → Inv index → Keeps (register_user host m index)
unfolding register_user
register_user-Keeps host m index v = elim (Option-cases (parse_conn m host.junk)) [
  | inl e ↦ rw e tt
  | inr (p, e) ↦ rw e (record { files = v.files; factor = v.factor }, tt)
]

register_file-Keeps :
    (host : Host) (m : Msg) (index : Index) → Inv index → Keeps (register_file host m index)
unfolding register_file
register_file-Keeps host m index v = elim (Option-cases (parse_str_conn m host.junk)) [
  | inl e ↦ rw e tt
  | inr ((f, p), e) ↦
      let added = add_peer f p index.file_index in
      let keeps = factor-add_peer f p index.file_index ∙ v.factor in
      rw
        (
          e,
          replicate_more_none host p f added.0 (record index { file_index = added.1 }) keeps
              (omega (arith, add_peer-suc f p index.file_index)),
        )
        (record { files = add_peer-IsPopulated f p index.file_index v.files; factor = keeps }, tt)
]

search_file-Keeps :
    (host : Host) (m : Msg) (index : Index) → Inv index → Keeps (search_file host m index)
unfolding search_file
search_file-Keeps host m index v = elim (Option-cases (parse_str m)) [
  | inl e ↦ rw e tt
  | inr (f, e) ↦ elim (Option-cases (get_rand_peer host.rand f index.file_index)) [
    | inl e' ↦ rw (e, e') tt
    | inr (c, e') ↦ elim (Option-cases (answer_to host c)) [
      | inl e'' ↦ rw (e, e', e'') tt
      | inr (r, e'') ↦ rw (e, e', e'') (v, tt)
    ]
  ]
]

message_handler-Keeps :
    (host : Host) (m : Msg) (index : Index) → Inv index → Keeps (message_handler host m index)
unfolding message_handler
message_handler-Keeps host m index v = elim (Bool-cases (eq_ℤ m.type Comms.new_user)) [
  | inl a ↦ rw a (register_user-Keeps host m index v)
  | inr a ↦ elim (Bool-cases (eq_ℤ m.type Comms.register_file)) [
    | inl b ↦ rw (a, b) (register_file-Keeps host m index v)
    | inr b ↦ elim (Bool-cases (eq_ℤ m.type Comms.search_index)) [
      | inl c ↦ rw (a, b, c) (search_file-Keeps host m index v)
      | inr c ↦ rw (a, b, c) (v, tt)
    ]
  ]
]

-- One request and the rest of them.
after :
    (sent : List Effect) (next : Step)
    → Answers sent
    → Keeps next
    → Keeps (next >>= λ r. some (r.0, sent ++ r.1))
after sent none h k = tt
after sent (some (last, more)) h k = (k.0, Answers-append sent more h k.1)

serve-Keeps :
    (requests : List (Host × Msg)) (index : Index) → Inv index → Keeps (serve requests index)
unfolding serve
serve-Keeps [] index v = (v, tt)
serve-Keeps ((host, m) ∷ requests) index v = elim (Option-cases (message_handler host m index)) [
  | inl e ↦ rw e tt
  | inr ((index', sent), e) ↦
      let kept : Inv index' × Answers sent = rw e at (message_handler-Keeps host m index v) in
      rw e (after sent (serve requests index') kept.1 (serve-Keeps requests index' kept.0))
]

start-Inv : Inv start
start-Inv = record { files = init-IsPopulated; factor = refl }

-- Whatever the clients ask of a server that has just started, and in whatever order, as long as no
-- request crashes it: every file of its index has a peer, the replication factor is still 1, and every
-- message that it has sent is an answer to the client that asked. In particular it has asked no peer to
-- replicate a file.
pub serve-Answers :
    (requests : List (Host × Msg)) (index : Index) (sent : List Effect)
    → serve requests start ≡ some (index, sent)
    → Inv index × Answers sent
serve-Answers requests index sent e = rw e at (serve-Keeps requests start start-Inv)
