-- ===== src/CentralizedPeer/Fetched/Tests.antt =====
-- A file of three bytes on its way between two peers of src/centralized_peer.cpp.
use cs550_pa.Prelude.{
  ℕ, ◌≡◌, refl, arith, inl, true, none, some, [], ◌∷◌, ◌++◌, map, pos, replicate, length-replicate,
}
use cs550_pa.Comms.{Msg, OpenFile, no_conn, Outcome, done, failed, fault, running}
use cs550_pa.Comms.Send.{send_msg, preamble}
use cs550_pa.Comms.Recv.{received, recv_msg, shared_dir}
use cs550_pa.Comms.Transmit.{padded, sendupdt_msg-padded}
use cs550_pa.Comms.Reassemble.{bytes_of}
use cs550_pa.Comms.Tests.{
  takes_all, grants, dir, base, a_file, one_page, file_first, file_rest, takes_all-Progresses,
  file-Cuts,
}
use cs550_pa.Exchange.{null_message, send_and_recv}
use cs550_pa.CentralizedPeer.{World, send_file, request_file_from}
use cs550_pa.CentralizedPeer.Fetched.{file_msg, request_of, FileReplies, request_file_from-stored}

abbrev on_disk : OpenFile
on_disk = record { fd = 5; contents = a_file.buf; maps = true }

abbrev answer_of : Outcome Msg → Msg
answer_of (done m) = m
answer_of failed = null_message
answer_of fault = null_message
answer_of running = null_message

abbrev world : World
world = record {
  malloc = grants;
  net = record {
    ask = λ c m. answer_of (
        send_and_recv takes_all none 3 grants one_page 2
          (received file_first ∷ map received (file_rest ∷ [])) m);
    once = λ c m. pos 0;
  };
  files = λ path. some on_disk;
  junk = no_conn;
}

request-sends :
    send_msg takes_all none 3 (request_of base)
    ≡ done (preamble (request_of base) ++ padded 1012 base)
unfolding send_msg
request-sends =
    sendupdt_msg-padded takes_all 3 (request_of base) (record { sized = refl }) refl
      (inl (omega arith)) (omega arith)

file-FileReplies :
    FileReplies one_page takes_all 4 2 9
      (file_msg on_disk)
      dir
      base
      (replicate 4096 0)
      file_first
      (file_rest ∷ [])
file-FileReplies = record {
  int = omega arith;
  is_file = refl;
  small = omega arith;
  path_fits = omega arith;
  name_fits = omega arith;
  no_slash = (λ e. cc, (λ e. cc, tt));
  no_zero = (λ e. cc, (λ e. cc, tt));
  progresses = takes_all-Progresses;
  whole_packet = refl;
  sends_all = omega arith;
  stores = record {
    opens = refl;
    truncates = refl;
    maps = refl;
    covers = omega (arith, length-replicate {A = ℕ} 4096 0);
    page = omega (arith, length-replicate {A = ℕ} 4096 0);
  };
  descriptor = omega arith;
  cuts = file-Cuts;
  enough = omega arith;
}

request_file_from-stored_example :
    (send_file world (request_of base) ≡ done (a_file, pos 0))
    × (send_msg takes_all (some (dir ++ b'/' ∷ base)) 4 a_file
        ≡ done (file_first ++ bytes_of (file_rest ∷ [])))
    × (recv_msg grants one_page 2 (received file_first ∷ map received (file_rest ∷ []))
        ≡ done (record {
          msg = record { buf = a_file.buf; size = 3; type = pos 9 };
          stored = some (shared_dir ++ base);
        }))
    × (request_file_from world no_conn base ≡ some (pos 0))
request_file_from-stored_example =
    request_file_from-stored world world no_conn on_disk takes_all takes_all 3 4 2 9 one_page dir
      base (replicate 4096 0) file_first (replicate 2 7)
      (preamble (request_of base) ++ padded 1012 base) (file_rest ∷ []) refl refl refl
      file-FileReplies request-sends (λ r e. rw e refl)
