-- ===== src/CentralizedPeer/Fetched.antt =====
-- A file on its way from one peer to another: request_file and send_file of src/centralized_peer.cpp over
-- send_msg and recv_msg of src/comms.c.
mod Tests
use cs550_pa.Prelude.{
  ℕ, ◌+◌, ◌^◌, ◌<◌, ◌≡◌, arith, true, some, List, ◌∷◌, ◌++◌, map, length, pos, IsInt, none, ap,
  refl, Option, ◌∙◌,
}
use cs550_pa.Comms.{Conn, Msg, Malloc, OpenFile, createfile_msg, done, is_file_msg, request_file}
use cs550_pa.Comms.Basename.{Avoids}
use cs550_pa.Comms.Send.{Kernel, send_msg, send_size, name_size, preamble}
use cs550_pa.Comms.Recv.{FileSystem, received, recv_msg, shared_dir}
use cs550_pa.Comms.Transmit.{Progresses, padded}
use cs550_pa.Comms.Reassemble.{bytes_of}
use cs550_pa.Comms.RoundTrip.{Cuts}
use cs550_pa.Comms.FileTrip.{Stores, name_of, recv_msg-sendfile_msg}
use cs550_pa.Messages.{create_str}
use cs550_pa.Messages.RoundTrip.{with_block-built}
use cs550_pa.Exchange.{send_and_recv}
use cs550_pa.Exchange.Reply.{send_and_recv-sent}
use cs550_pa.CentralizedPeer.{World, request_file_calls, request_file_from, send_file, file_status}
use cs550_pa.CentralizedPeer.Transfer.{file_reply, send_file-name}

abbrev pub file_msg : OpenFile → Msg
file_msg file = record { buf = file.contents; size = length file.contents; type = pos file.fd }

abbrev pub request_of : List ℕ → Msg
request_of f = record { buf = f; size = length f; type = request_file }

-- How a peer puts the file `m` on the wire, which lies in the directory `dir` under the name `f`, and how
-- the other one is able to read and store it as its file `fd`.
pub record FileReplies (fs : FileSystem) (kernel : Kernel) (reply_fuel fuel fd : ℕ) (m : Msg)
    (dir f pages first : List ℕ) (cs : List (List ℕ)) : Type 0 where
  pub int : IsInt m.type
  pub is_file : is_file_msg m.type ≡ true
  pub small : m.size + 256 < 2 ^ 31
  pub path_fits : length (dir ++ b'/' ∷ f) < name_size
  pub name_fits : 7 + length f < name_size
  pub no_slash : Avoids b'/' f
  pub no_zero : Avoids 0 f
  pub progresses : Progresses kernel
  pub whole_packet : kernel 0 send_size ≡ some send_size
  pub sends_all : m.size < reply_fuel
  pub stores : Stores fs (shared_dir ++ f) m.size fd pages
  pub descriptor : 0 < fd
  pub cuts : Cuts 256 (preamble m ++ (name_of (dir ++ b'/' ∷ f) ++ padded 768 m.buf)) first cs
  pub enough : length cs < fuel

createfile_msg-maps :
    (w : World) (path : List ℕ) (file : OpenFile)
    → w.files path ≡ some file
    → file.maps ≡ true
    → createfile_msg w.files path ≡ done (file_msg file)
unfolding createfile_msg
createfile_msg-maps w path file e maps = rw (createfile_msg, e, maps) refl

file_status-stored : (m : Msg) (fd : ℕ) → m.type ≡ pos fd → 0 < fd → file_status m ≡ pos 0
file_status-stored m fd e h = ground (arith, e, h)

request_file_from-status :
    (w : World) (source : Conn) (f raw : List ℕ)
    → w.malloc (length f) ≡ some raw
    → request_file_from w source f ≡ some (file_status (w.net.ask source (request_of f)))
unfolding request_file_from request_file_calls create_str
request_file_from-status w source f raw h =
    rw (with_block-built w.malloc f raw (length f) request_file h)

-- A file that one peer asks of another arrives: the other peer's `send_file` replies with the file of that
-- name in its shared directory, what its `send_msg` puts on the wire are the deliveries from which the
-- first peer's `recv_msg` stores the same bytes under the same name in its own shared directory, and
-- `request_file` returns 0. The other peer can open and map the file, the request gets its memory and is
-- sent without an error, and the network answers what `send_and_recv` returns, if it returns. Both
-- descriptors are positive and the sender's is an `int`, the size is below 2 GiB less 256 bytes, the name
-- has no slash and no zero and fits the paths of both sides, the receiver's system calls succeed, the
-- first `send` takes its whole packet and the others at least a byte each, the first delivery is at most a
-- packet and has the header, and the fuel is more than the size and more than the deliveries.
pub request_file_from-stored :
    (server client : World) (source : Conn) (file : OpenFile) (asking kernel : Kernel)
    (send_fuel reply_fuel fuel fd : ℕ) (fs : FileSystem) (dir f pages first raw wire : List ℕ)
    (cs : List (List ℕ))
    → server.files (shared_dir ++ f) ≡ some file
    → file.maps ≡ true
    → client.malloc (length f) ≡ some raw
    → FileReplies fs kernel reply_fuel fuel fd (file_msg file) dir f pages first cs
    → send_msg asking none send_fuel (request_of f) ≡ done wire
    → ((r : Msg)
        → send_and_recv asking none send_fuel client.malloc fs fuel
            (received first ∷ map received cs)
            (request_of f)
          ≡ done r
        → client.net.ask source (request_of f) ≡ r)
    → (send_file server (request_of f) ≡ done (file_msg file, pos 0))
      × (send_msg kernel (some (dir ++ b'/' ∷ f)) reply_fuel (file_msg file)
          ≡ done (first ++ bytes_of cs))
      × (recv_msg client.malloc fs fuel (received first ∷ map received cs)
          ≡ done (record {
            msg = record { buf = file.contents; size = length file.contents; type = pos fd };
            stored = some (shared_dir ++ f);
          }))
      × (request_file_from client source f ≡ some (pos 0))
request_file_from-stored server client source file asking kernel send_fuel reply_fuel fuel fd fs dir
      f pages first raw wire cs opens maps alloc r sends answers =
    let (sent, got) =
      recv_msg-sendfile_msg client.malloc fs kernel reply_fuel fuel fd (file_msg file) dir f pages
        first cs (record { sized = refl }) r.int r.is_file r.small r.path_fits r.no_slash r.no_zero
        r.name_fits r.progresses r.whole_packet r.sends_all r.stores r.cuts r.enough in
    let stored : Msg = record { buf = file.contents; size = length file.contents; type = pos fd } in
    let events = received first ∷ map received cs in
    let replied =
      send_and_recv-sent asking none send_fuel fuel client.malloc fs events (request_of f) wire
        (record { msg = stored; stored = some (shared_dir ++ f) }) sends got in
    (
      send_file-name server f r.no_zero (omega (arith, r.name_fits))
          ∙ ap file_reply (createfile_msg-maps server (shared_dir ++ f) file opens maps),
      sent,
      got,
      request_file_from-status client source f raw alloc
          ∙ ap some (
              file_status-stored (client.net.ask source (request_of f)) fd
                (ap (λ x. x.type) (answers stored replied)) r.descriptor),
    )
