-- ===== src/Comms/Tests.antt =====
-- Runs of the model of src/comms.c on small messages.
use cs550_pa.Prelude.{
  ℕ, ◌≡◌, refl, arith, none, some, List, [], ◌∷◌, ◌++◌, map, length, take, drop, replicate,
  take-append-drop, append-nil, length-append, length-replicate, true, false, negsuc, pos, inl, ◌∙◌,
  ap, length-take,
}
use cs550_pa.Comms.{Msg, Malloc, done, delete_msg}
use cs550_pa.Comms.Send.{Kernel, send_msg, preamble, sendupdt_msg}
use cs550_pa.Comms.Recv.{FileSystem, received, recv_msg}
use cs550_pa.Word.{le_bytes}
use cs550_pa.Comms.{running, fault, new_user}
use cs550_pa.Comms.Recv.{recvupdt_msg}
use cs550_pa.Comms.Closed.{recv_loop-closed}
use cs550_pa.Comms.Overrun.{recvupdt_msg-fault}
use cs550_pa.Comms.Name.{cstring, array, getname, last_slash, shift_loop, zero_loop}
use cs550_pa.Comms.Send.{name_size}
use cs550_pa.Comms.Recv.{recv_loop, shared_dir}
use cs550_pa.Comms.Basename.{length-getname, length-array}
use cs550_pa.Comms.FileTrip.{name_of, recv_msg-sendfile_msg}
use cs550_pa.Comms.Holed.{holed, sendupdt_msg-holed}
use cs550_pa.Comms.Transmit.{Progresses, padded, length-preamble}
use cs550_pa.Comms.Reassemble.{bytes_of}
use cs550_pa.Comms.RoundTrip.{Cuts, update_of, recv_msg-sendupdt_msg}

-- A kernel that takes all that it is given, and a `malloc` that always grants.
abbrev pub takes_all : Kernel
takes_all i n = some n

abbrev pub grants : Malloc
grants n = some (replicate n 7)

pub takes_all-Progresses : Progresses takes_all
takes_all-Progresses i n h = (n, refl, h, omega arith)

abbrev pub no_files : FileSystem
no_files = record { open_file = λ _. none; truncates = false; map_pages = λ _. none }

abbrev pub hello : Msg
hello = record { buf = b'a' ∷ b'b' ∷ b'c' ∷ []; size = 3; type = negsuc 0 }

abbrev pub hello_wire : List ℕ
hello_wire = preamble hello ++ padded 1012 hello.buf

abbrev pub hello_first : List ℕ
hello_first = take 20 hello_wire

abbrev pub hello_rest : List ℕ
hello_rest = drop 20 hello_wire

pub hello_first-length : length hello_first ≡ 20
unfolding preamble padded le_bytes
hello_first-length = refl

pub hello-Cuts : Cuts 12 hello_wire hello_first (hello_rest ∷ [])
hello-Cuts = record {
  whole = ap (◌++◌ hello_first) (append-nil hello_rest) ∙ take-append-drop 20 hello_wire;
  has_header = omega (arith, hello_first-length);
  fits = omega (arith, hello_first-length);
}

recv_msg-sendupdt_msg_example :
    (send_msg takes_all none 4 hello ≡ done (hello_first ++ bytes_of (hello_rest ∷ [])))
    × (recv_msg grants no_files 2 (received hello_first ∷ map received (hello_rest ∷ []))
        ≡ done (update_of hello))
recv_msg-sendupdt_msg_example =
    recv_msg-sendupdt_msg grants no_files takes_all none 4 2 hello (replicate 3 7) hello_first
      (hello_rest ∷ []) (record { sized = refl }) (omega arith) refl (inl (omega arith)) refl
      (omega arith) (record { alloc = refl; block = refl }) hello-Cuts
      (inl (omega (arith, hello_first-length))) (omega arith)

getname_run :
    cstring (getname (array 12 (b'/' ∷ b'a' ∷ b'/' ∷ b'b' ∷ b'c' ∷ [])) 12) ≡ b'b' ∷ b'c' ∷ []
unfolding getname last_slash shift_loop zero_loop cstring array
getname_run = refl

-- A file "/a/bc" of three bytes.
abbrev pub dir : List ℕ
dir = b'/' ∷ b'a' ∷ []

abbrev pub base : List ℕ
base = b'b' ∷ b'c' ∷ []

abbrev pub a_file : Msg
a_file = record { buf = b'x' ∷ b'y' ∷ b'z' ∷ []; size = 3; type = pos 5 }

abbrev pub one_page : FileSystem
one_page = record {
  open_file = λ _. some 9;
  truncates = true;
  map_pages = λ _. some (replicate 4096 0);
}

abbrev pub file_wire : List ℕ
file_wire = preamble a_file ++ (name_of (dir ++ b'/' ∷ base) ++ padded 768 a_file.buf)

length-payload : length (padded 768 a_file.buf) ≡ 768
unfolding padded
length-payload = refl

length-file_wire : length file_wire ≡ 1024
length-file_wire = omega (
  arith,
  length-preamble a_file,
  length-append (preamble a_file) (name_of (dir ++ b'/' ∷ base) ++ padded 768 a_file.buf),
  length-append (name_of (dir ++ b'/' ∷ base)) (padded 768 a_file.buf),
  length-getname (array name_size (dir ++ b'/' ∷ base)) name_size,
  length-array name_size (dir ++ b'/' ∷ base),
  length-payload,
)

abbrev pub file_first : List ℕ
file_first = take 300 file_wire

abbrev pub file_rest : List ℕ
file_rest = drop 300 file_wire

length-file_first : length file_first ≡ 300
length-file_first = omega (arith, length-take 300 file_wire, length-file_wire)

pub file-Cuts : Cuts 256 file_wire file_first (file_rest ∷ [])
file-Cuts = record {
  whole = ap (◌++◌ file_first) (append-nil file_rest) ∙ take-append-drop 300 file_wire;
  has_header = omega (arith, length-file_first);
  fits = omega (arith, length-file_first);
}

recv_msg-sendfile_msg_example :
    (send_msg takes_all (some (dir ++ b'/' ∷ base)) 4 a_file
      ≡ done (file_first ++ bytes_of (file_rest ∷ [])))
    × (recv_msg grants one_page 2 (received file_first ∷ map received (file_rest ∷ []))
        ≡ done (record {
          msg = record { buf = a_file.buf; size = 3; type = pos 9 };
          stored = some (shared_dir ++ base);
        }))
recv_msg-sendfile_msg_example =
    recv_msg-sendfile_msg grants one_page takes_all 4 2 9 a_file dir base (replicate 4096 0)
      file_first (file_rest ∷ []) (record { sized = refl }) (omega arith) refl (omega arith)
      (omega arith) (λ e. cc, (λ e. cc, tt)) (λ e. cc, (λ e. cc, tt)) (omega arith)
      takes_all-Progresses refl (omega arith)
      (record {
        opens = refl;
        truncates = refl;
        maps = refl;
        covers = omega (arith, length-replicate {A = ℕ} 4096 0);
        page = omega (arith, length-replicate {A = ℕ} 4096 0);
      })
      file-Cuts (omega arith)

abbrev long : Msg
long = record { buf = replicate 2030 1; size = 2030; type = negsuc 0 }

sendupdt_msg-holed_example :
    sendupdt_msg takes_all 2031 long
    ≡ done (preamble long ++ (take 1012 long.buf ++ holed (drop 1012 long.buf)))
sendupdt_msg-holed_example =
    sendupdt_msg-holed takes_all 2031 long (record { sized = length-replicate {A = ℕ} 2030 1 })
      (λ i n. refl) (omega arith) (omega arith)

a_file-deletes : (delete_msg true true a_file).2 ≡ true
unfolding delete_msg
a_file-deletes = refl

-- A stream that ends after one of two missing bytes.
recv_loop-closed_example :
    recv_loop 9 (map received ((b'b' ∷ []) ∷ [])) 12 (b'a' ∷ 7 ∷ 7 ∷ []) 13 2 ≡ running
recv_loop-closed_example =
    recv_loop-closed 9 ((b'b' ∷ []) ∷ []) 12 2 (b'a' ∷ []) (7 ∷ 7 ∷ []) (omega arith) (omega arith)

-- One byte of the three of a message, and then the rest with the padding.
recvupdt_msg-fault_example :
    recvupdt_msg grants 5 (received (replicate 1011 0) ∷ []) new_user 3 13 (replicate 1024 0)
    ≡ fault
recvupdt_msg-fault_example =
    recvupdt_msg-fault grants 5 [] new_user 3 1 (replicate 1024 0) (replicate 3 7)
      (replicate 1011 0) (record { alloc = refl; block = refl }) (length-replicate {A = ℕ} 1024 0)
      (omega arith) (omega arith) (omega arith) (omega (arith, length-replicate {A = ℕ} 1011 0))
      (omega arith)
