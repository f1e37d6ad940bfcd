-- ===== src/IndexServer/Tests.antt =====
-- Runs of the model of src/index_server.cpp.
use mathlib.Core.List.{Memᴰ}
use mathlib.Core.List.Memᴰ
use cs550_pa.Prelude.{
  ℕ, ◌%◌, ◌≡◌, refl, arith, some, List, [], ◌∷◌, map, replicate, negsuc, pos, take, bits_int,
  int_bits, inl, inr,
}
use cs550_pa.Word.{le_bytes, of_le_bytes, read_word, read_int}
use cs550_pa.Comms
use cs550_pa.Comms.{Conn, Msg, Malloc, no_conn, replication_req, createupdt_msg}
use cs550_pa.Messages.{create_conn, parse_str, parse_str_conn, create_str_conn, assign, with_block}
use cs550_pa.FileIndex.{FileIndex, add_peer, find, get_rand_peer}
use cs550_pa.FileIndex
use cs550_pa.FileIndex.Lookup.{peers_of, init-IsPopulated, add_peer-IsPopulated}
use cs550_pa.IndexServer.{
  Index, Host, answer, send_to, find_replication_peers, register_file, search_file, message_handler,
  answer_to, replicate_more,
}
use cs550_pa.IndexServer.Circle.{rotate, keep}
use cs550_pa.IndexServer.Replication.{lacks_file, find_replication_peers-take}
use cs550_pa.IndexServer.Handlers.{
  chosen, registered, register_file-chosen, IsPeer, Found, search_file-Found,
}
use cs550_pa.IndexServer.History.{start, serve, Inv, Answers, serve-Answers}

abbrev grants : Malloc
grants n = some (replicate n 7)

abbrev host : Host
host = record { malloc = grants; rand = 4; junk = no_conn }

-- What a message leaves of a connection: no socket.
abbrev peer : ℕ → Conn
peer n = record { addr = pos n; port = pos 8000; sock = negsuc 0 }

abbrev name : List ℕ
name = b'f' ∷ []

-- Three peers, and an index that wants three copies.
abbrev three : Index
three = record {
  peers = peer 1 ∷ peer 2 ∷ peer 3 ∷ [];
  file_index = record { file_peer_map = []; replication_factor = 3 };
}

find_replication_peers-take_example :
    find_replication_peers 4 name 2 three
    ≡ some (take 2 (keep (lacks_file name three.file_index) (rotate (4 % 3) three.peers)))
find_replication_peers-take_example = find_replication_peers-take 4 name 2 three

-- REGISTER_FILE of "f" by the first peer.
abbrev registration : Msg
registration = record {
  buf = 1 ∷ 0 ∷ 0 ∷ 0 ∷ 64 ∷ 31 ∷ 0 ∷ 0 ∷ b'f' ∷ [];
  size = 9;
  type = Comms.register_file;
}

registration-parses : parse_str_conn registration no_conn ≡ some (name, peer 1)
unfolding parse_str_conn assign read_int read_word of_le_bytes bits_int
registration-parses = refl

abbrev replica : Msg
replica = record {
  buf = 1 ∷ 0 ∷ 0 ∷ 0 ∷ 64 ∷ 31 ∷ 0 ∷ 0 ∷ b'f' ∷ [];
  size = 9;
  type = replication_req;
}

replica-made : create_str_conn grants name (peer 1) replication_req ≡ some replica
unfolding create_str_conn with_block le_bytes int_bits
replica-made = refl

register_file-chosen_example :
    register_file host registration three
    ≡ some (
      registered name (peer 1) three,
      map (λ p. send_to p replica) (chosen 4 name (registered name (peer 1) three)),
    )
register_file-chosen_example =
    register_file-chosen host registration replica name (peer 1) three registration-parses
      replica-made

abbrev query : Msg
query = record { buf = b'f' ∷ []; size = 1; type = Comms.search_index }

query-parses : parse_str query ≡ some name
unfolding parse_str assign
query-parses = refl

abbrev indexed : Index
indexed = record { peers = peer 1 ∷ []; file_index = (add_peer name (peer 1) FileIndex.init).1 }

indexed-IsPeer : (c : Conn) → Memᴰ c (peers_of name indexed.file_index) → IsPeer c
unfolding peers_of find add_peer
indexed-IsPeer c m = elim (Memᴰ.cases_cons m) [
  | inl e ↦ rw e (record {
    endpoint = record { addr_int = omega arith; port_int = omega arith };
    known = refl;
  })
  | inr r ↦ absurd (Memᴰ.not-nil r)
]

search_file-Found_example :
    (r : Msg) × (search_file host query indexed ≡ some (indexed, answer r ∷ []))
    × Found name no_conn indexed.file_index r
search_file-Found_example =
    search_file-Found host query name (replicate 8 7) no_conn indexed query-parses
      (add_peer-IsPopulated name (peer 1) FileIndex.init init-IsPopulated) indexed-IsPeer refl

abbrev found : Msg
found = record { buf = 1 ∷ 0 ∷ 0 ∷ 0 ∷ 64 ∷ 31 ∷ 0 ∷ 0 ∷ []; size = 8; type = Comms.status_ok }

abbrev after_registration : Index
after_registration = record {
  peers = [];
  file_index = record { file_peer_map = (name, peer 1 ∷ []) ∷ []; replication_factor = 1 };
}

served :
    serve ((host, registration) ∷ (host, query) ∷ []) start
    ≡ some (after_registration, answer found ∷ [])
unfolding serve message_handler register_file parse_str_conn assign read_int read_word
    replicate_more add_peer search_file parse_str get_rand_peer answer_to bits_int of_le_bytes
    create_conn createupdt_msg le_bytes int_bits find
served = refl

serve-Answers_example : Inv after_registration × Answers (answer found ∷ [])
serve-Answers_example =
    serve-Answers ((host, registration) ∷ (host, query) ∷ []) after_registration (answer found ∷ [])
      served
