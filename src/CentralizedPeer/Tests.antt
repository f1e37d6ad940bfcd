-- ===== src/CentralizedPeer/Tests.antt =====
-- Runs of the model of src/centralized_peer.cpp.
use mathlib.Core.List.{Memᴰ}
use mathlib.Core.List.Memᴰ
use cs550_pa.Prelude.{ℕ, ◌≡◌, refl, true, false, some, List, [], ◌∷◌, pos, replicate}
use cs550_pa.Comms
use cs550_pa.Comms.{Conn, Msg, Malloc, OpenFile, Files, no_conn, done, createfile_msg}
use cs550_pa.Messages.{create_str_conn, with_block}
use cs550_pa.FileIndex
use cs550_pa.FileIndex.{add_peer}
use cs550_pa.IndexServer
use cs550_pa.IndexServer.{Index, Host, answer, send_to, search_file}
use cs550_pa.Exchange.{null_message}
use cs550_pa.CentralizedPeer.{World, Peer, Entry, register_file_calls, register_file}

abbrev grants : Malloc
grants n = some (replicate n 7)

abbrev conn_of : ℕ → Conn
conn_of n = record { addr = pos n; port = pos 8000; sock = pos 0 }

abbrev name : List ℕ
name = b'f' ∷ []

abbrev host : Host
host = record { malloc = grants; rand = 4; junk = no_conn }

abbrev peer : Peer
peer = record { peer_id = 2; index_server = conn_of 9; home = conn_of 1 }

abbrev indexed : Index
indexed = record { peers = []; file_index = (add_peer name (conn_of 1) FileIndex.init).1 }

-- The answer of the index server to a request, and no reply where it crashes.
abbrev answer_of : IndexServer.Step → Msg
answer_of (some (index, answer m ∷ sent)) = m
answer_of _ = null_message

abbrev world : World
world = record {
  malloc = grants;
  net = record { ask = λ c m. answer_of (search_file host m indexed); once = λ c m. pos 0 };
  files = λ path. some (record { fd = 3; contents = b'x' ∷ []; maps = true });
  junk = no_conn;
}

abbrev entries : List Entry
entries = (name, true) ∷ (b'.' ∷ [], false) ∷ []

accepts : (f : List ℕ) → register_file world peer f ≡ some (pos 0)
unfolding register_file register_file_calls create_str_conn with_block
accepts f = refl
