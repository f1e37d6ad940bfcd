-- ===== src/CentralizedPeer.antt =====
-- src/centralized_peer.cpp: a peer that registers and finds its files at the index server.
pub mod Search
pub mod Fetched
pub mod Transfer
mod Tests
use cs550_pa.Prelude.{
  ℕ, zero, suc, ◌+◌, ◌%◌, ◌^◌, ltb, leb, Bool, true, false, ◌||◌, if◌then◌else◌, Option, none, some,
  List, [], ◌∷◌, ◌++◌, ℤ, pos, negsuc, eq_ℤ, is_negative, length, take,
}
use cs550_pa.Comms
use cs550_pa.Comms.{
  Conn, no_conn, Msg, Malloc, Files, createfile_msg, Outcome, done, fault, failed, running,
  new_user, request_file, search_index, replication_req, status_bad, null_msg,
}
use cs550_pa.Comms.Name.{cstring, array}
use cs550_pa.Comms.Recv.{shared_dir}
use cs550_pa.Messages.{
  ◌>>=◌, create_conn, create_str, create_str_conn, create_status, parse_conn, parse_str_conn,
}
use cs550_pa.Exchange.{Net}

pub record Peer : Type 0 where
  pub peer_id : ℕ
  pub index_server : Conn
  pub home : Conn

-- What a peer runs on: `malloc`, the network, its files, and the connection whose socket
-- `parse_message` leaves as it is.
pub record World : Type 0 where
  pub malloc : Malloc
  pub net : Net
  pub files : Files
  pub junk : Conn

-- `none` below is a crash: a null pointer from `malloc`, or a payload too short for its parser.

unfoldable pub register_user : World → Peer → Option ℤ
register_user w peer = do
  request ← create_conn w.malloc peer.home new_user
  some (w.net.once peer.index_server request)

-- What a peer does on the network: a request with a reply, or a message that has none.
pub data Call : Type 0 where
  asked : Conn → Msg → Call
  told : Conn → Msg → Call

-- `register_file`, with what it does on the network.
unfoldable pub register_file_calls : World → Peer → List ℕ → Option (List Call × ℤ)
register_file_calls w peer filename = do
  request ← create_str_conn w.malloc filename peer.home Comms.register_file
  some (told peer.index_server request ∷ [], w.net.once peer.index_server request)

unfoldable pub register_file : World → Peer → List ℕ → Option ℤ
register_file w peer filename = do
  (calls, status) ← register_file_calls w peer filename
  some status

-- The constructor, with whether the server starts; `none` is also its exception. What becomes of the
-- registration is not looked at.
unfoldable pub new_peer : World → ℕ → Conn → Conn → Bool → Option Peer
new_peer w peer_id index_server home starts =
    let peer : Peer = record {
      peer_id = peer_id % 2 ^ 8;
      index_server = index_server;
      home = home;
    } in
    if starts then (do status ← register_user w peer; some peer) else none

-- An entry of a directory: its name, and whether it is a regular file.
abbrev pub Entry : Type 0
Entry = List ℕ × Bool

-- The loop over the entries, with the number of files registered so far.
unfoldable pub register_entries : World → Peer → List Entry → ℕ → Option ℤ
register_entries w peer [] files_registered = some (pos files_registered)
register_entries w peer ((name, regular) ∷ entries) files_registered =
    let rest = register_entries w peer entries (files_registered + 1) in
    let skip = register_entries w peer entries files_registered in
    if regular
    then (do
      status ← register_file w peer name
      if is_negative status then some (negsuc 0) else rest)
    else skip

-- A directory that cannot be opened counts as one file.
unfoldable pub register_directory : World → Peer → Option (List Entry) → Option ℤ
register_directory w peer none = some (pos 1)
register_directory w peer (some entries) = register_entries w peer entries 0

-- What `search_for_file` makes of the answer.
unfoldable pub read_answer : World → Msg → Option Conn
read_answer w response =
    if eq_ℤ response.type status_bad || eq_ℤ response.type null_msg
    then some no_conn
    else parse_conn response w.junk

unfoldable pub search_for_file : World → Peer → List ℕ → Option Conn
search_for_file w peer filename = do
  request ← create_str w.malloc filename search_index
  read_answer w (w.net.ask peer.index_server request)

-- The end of both `request_file`s: -1 for no reply and for a bad status.
abbrev pub file_status : Msg → ℤ
file_status response =
    if eq_ℤ response.type null_msg
    then negsuc 0
    else if eq_ℤ response.type status_bad
    then negsuc 0
    else pos 0

-- `request_file(peer, filename)`, with what it does on the network.
unfoldable pub request_file_calls : World → Conn → List ℕ → Option (List Call × ℤ)
request_file_calls w source filename = do
  request ← create_str w.malloc filename request_file
  some (asked source request ∷ [], file_status (w.net.ask source request))

unfoldable pub request_file_from : World → Conn → List ℕ → Option ℤ
request_file_from w source filename = do
  (calls, status) ← request_file_calls w source filename
  some status

-- `request_file(filename)`
unfoldable pub fetch : World → Peer → List ℕ → Option ℤ
fetch w peer filename = do
  source ← search_for_file w peer filename
  if eq_ℤ source.addr (negsuc 0) then some (negsuc 0) else request_file_from w source filename

-- The path that `send_file` puts together in an array of 256 bytes.
unfoldable pub file_path : Msg → Outcome (List ℕ)
file_path request =
    let path = cstring (array 256 (shared_dir ++ take request.size request.buf)) in
    if ltb 256 (length shared_dir + request.size)
    then fault
    else if leb 256 (length path)
    then fault
    else done path

-- `send_file`: the message that it sends to the client, and its result.
unfoldable pub send_file : World → Msg → Outcome (Msg × ℤ)
send_file w request = elim (file_path request) [
  | failed ↦ failed
  | fault ↦ fault
  | running ↦ running
  | done path ↦ elim (createfile_msg w.files path) [
    | done response ↦ done (response, pos 0)
    | failed ↦ done (record { buf = []; size = 0; type = status_bad }, negsuc 0)
    | fault ↦ fault
    | running ↦ running
  ]
]

-- What it does on the network, in order, and its result.
unfoldable pub replicate_file : World → Peer → Msg → Option (List Call × ℤ)
replicate_file w peer request = do
  (filename, source) ← parse_str_conn request w.junk
  (requested, status) ← request_file_calls w source filename
  if is_negative status then some (requested, negsuc 0) else (do
    (registered, result) ← register_file_calls w peer filename
    some (requested ++ registered, result))

-- What `message_handler` does with a message: it sends a file, makes a replica, or only reports.
pub data Reaction : Type 0 where
  sent : Outcome (Msg × ℤ) → Reaction
  replicated : Option (List Call × ℤ) → Reaction
  unknown : Reaction

unfoldable pub message_handler : World → Peer → Msg → Reaction
message_handler w peer request =
    if eq_ℤ request.type request_file
    then sent (send_file w request)
    else if eq_ℤ request.type replication_req
    then replicated (replicate_file w peer request)
    else unknown
