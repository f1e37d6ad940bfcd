-- ===== src/Comms/Recv.antt =====
-- `recv_msg` of src/comms.c.
use cs550_pa.Prelude.{
  ℕ, zero, suc, ◌+◌, ◌-◌, ◌%◌, ◌^◌, ltb, leb, ◌==◌, if◌then◌else◌, Option, none, some, List, [],
  ◌∷◌, ◌++◌, ℤ, pos, pos_part, bits_int, length, take, drop, ◌&&◌, Bool,
}
use cs550_pa.Word.{of_le_bytes}
use cs550_pa.Comms.{Msg, Malloc, Outcome, done, failed, fault, running, is_file_msg, ◌>>=◌}
use cs550_pa.Comms.Send.{send_size, header_size, name_size}
use cs550_pa.Comms.Name.{cstring, array}

-- The result of one call of `recv`: at most 1024 bytes, or -1. A closed stream gives no bytes.
pub data Delivery : Type 0 where
  received : List ℕ → Delivery
  broken : Delivery

-- `memcpy(base + (at - header), bytes)` into a block; a write out of its bounds is a fault.
unfoldable pub store_at : ℕ → ℕ → List ℕ → List ℕ → Option (List ℕ)
store_at header at [] block = some block
store_at header at (b ∷ bs) block =
    let from = at - header in
    let bytes = b ∷ bs in
    if leb header at && leb (from + length bytes) (length block)
    then some (take from block ++ (bytes ++ drop (from + length bytes) block))
    else none

-- The loop of both receivers: `bytesleft` bytes are missing, and `bufpos` is `at - header` bytes
-- behind the start of the block. With no more deliveries `recv` says 0, again and again.
unfoldable pub recv_loop : ℕ → List Delivery → ℕ → List ℕ → ℕ → ℕ → Outcome (List ℕ)
unfolding store_at
recv_loop zero events header block at left = running
recv_loop (suc fuel) [] header block at left =
    let again = recv_loop fuel [] header block at left in if left == 0 then done block else again
recv_loop (suc fuel) (broken ∷ events) header block at left =
    if left == 0 then done block else failed
recv_loop (suc fuel) (received bytes ∷ events) header block at left =
    let more = λ (written : List ℕ).
      recv_loop fuel events header written (at + length bytes) (left - length bytes) in
    if left == 0
    then done block
    else elim (store_at header at bytes block) [ none ↦ fault | some written ↦ more written ]

-- `bytesleft = (ret.size + headersize) - bytesread`: computed as a `size_t` and stored in an `int`. A
-- value that is not positive ends the loop at once, and is 0 here.
unfoldable pub bytes_left : ℕ → ℕ → ℕ → ℕ
bytes_left size header bytesread =
    pos_part (bits_int ((size + header + 2 ^ 64 - bytesread) % 2 ^ 32))

-- What a receiver returns: the message, and for a file the path at which it was stored.
pub record Received : Type 0 where
  pub msg : Msg
  pub stored : Option (List ℕ)

abbrev update_received : ℤ → ℕ → List ℕ → Outcome Received
update_received type size block =
    done (record { msg = record { buf = block; size = size; type = type }; stored = none })

-- `recvupdt_msg`. The test `bytesread - headersize < ret.size` is unsigned: it fails for a header cut
-- short.
unfoldable pub recvupdt_msg : Malloc → ℕ → List Delivery → ℤ → ℕ → ℕ → List ℕ → Outcome Received
recvupdt_msg malloc fuel events type size bytesread prv =
    let count = if leb 12 bytesread && ltb (bytesread - 12) size then bytesread - 12 else size in
    if size == 0 then update_received type size [] else elim (malloc size) [
      | none ↦ failed
      | some raw ↦
          if ltb (send_size - 12) count
          then fault
          else elim (store_at 12 12 (take count (drop 12 prv)) raw) [
            | none ↦ fault
            | some block ↦ (do
              full ← recv_loop fuel events 12 block bytesread (bytes_left size 12 bytesread)
              update_received type size full)
          ]
    ]

-- What the system answers while a file is received: `open` with O_CREAT, `ftruncate`, and `mmap`,
-- which gives the bytes of the pages that hold the file.
pub record FileSystem : Type 0 where
  pub open_file : List ℕ → Option ℕ
  pub truncates : Bool
  pub map_pages : ℕ → Option (List ℕ)

-- "./data/"
abbrev pub shared_dir : List ℕ
shared_dir = b'.' ∷ b'/' ∷ b'd' ∷ b'a' ∷ b't' ∷ b'a' ∷ b'/' ∷ []

-- `recvfile_msg` from the path on. The path goes into an array of 244 bytes with a zero behind it.
unfoldable pub recvfile_into :
    FileSystem → ℕ → List Delivery → ℕ → ℕ → List ℕ → List ℕ → Outcome Received
recvfile_into fs fuel events size bytesread recvbuf path =
    if leb name_size (length path) then fault else elim (fs.open_file path) [
      | none ↦ failed
      | some fd ↦
          if fs.truncates
          then elim (fs.map_pages size) [
            | none ↦ failed
            | some pages ↦
                if ltb bytesread header_size
                then fault
                else elim (store_at header_size header_size (drop header_size recvbuf) pages) [
                  | none ↦ fault
                  | some block ↦ (do
                    full ←
                        recv_loop fuel events header_size block bytesread
                          (bytes_left size header_size bytesread)
                    done (record {
                      msg = record { buf = take size full; size = size; type = pos fd };
                      stored = some path;
                    }))
                ]
          ]
          else failed
    ]

-- `recvfile_msg`: the bytes read so far are copied, and the path is the shared directory and the name
-- in the header.
unfoldable pub recvfile_msg : FileSystem → ℕ → List Delivery → ℕ → ℕ → List ℕ → Outcome Received
recvfile_msg fs fuel events size bytesread prb =
    let recvbuf = take bytesread prb in
    recvfile_into fs fuel events size bytesread recvbuf
      (shared_dir ++ cstring (take name_size (drop 12 recvbuf)))

-- Both receivers on the first delivery, which lies in an array of 1024 zero bytes.
unfoldable pub recv_first : Malloc → FileSystem → ℕ → List Delivery → List ℕ → Outcome Received
recv_first malloc fs fuel events bytes =
    let recvbuf = array send_size bytes in
    let type = bits_int (of_le_bytes (take 4 recvbuf)) in
    let size = of_le_bytes (take 8 (drop 4 recvbuf)) in
    if is_file_msg type
    then recvfile_msg fs fuel events size (length bytes) recvbuf
    else recvupdt_msg malloc fuel events type size (length bytes) recvbuf

unfoldable pub recv_msg : Malloc → FileSystem → ℕ → List Delivery → Outcome Received
recv_msg malloc fs fuel [] = recv_first malloc fs fuel [] []
recv_msg malloc fs fuel (broken ∷ events) = failed
recv_msg malloc fs fuel (received bytes ∷ events) = recv_first malloc fs fuel events bytes
