-- ===== src/Comms/Send.antt =====
-- `send_msg` of src/comms.c: what the two senders put on the wire.
use cs550_pa.Prelude.{
  ℕ, zero, suc, ◌+◌, ◌-◌, ltb, ◌==◌, if◌then◌else◌, Option, none, some, List, [], ◌++◌, length,
  take, drop, replicate,
}
use cs550_pa.Word.{le_bytes, int_bytes}
use cs550_pa.Comms.{Msg, Outcome, done, failed, fault, running, is_file_msg, ◌>>=◌}
use cs550_pa.Comms.Name.{array, getname}

abbrev pub send_size : ℕ
send_size = 1024

-- What the `send` call of a number does with so many bytes, a parameter: how many it accepts, or -1.
abbrev pub Kernel : Type 0
Kernel = ℕ → ℕ → Option ℕ

-- `sendbuf`, all zero, after the first `room` bytes at `src` are copied into it. The bytes are there: the
-- loop of `sendupdt_msg` looks first, and that of `sendfile_msg` copies no more than is left.
unfoldable pub fill : ℕ → List ℕ → List ℕ
fill room src = take room src ++ replicate (send_size - length (take room src)) 0

-- The type and the size, by which every message begins.
unfoldable pub preamble : Msg → List ℕ
preamble m = int_bytes m.type ++ le_bytes 8 m.size

-- `sending` of the loops.
abbrev pub next_size : ℕ → ℕ
next_size left = if ltb send_size left then send_size else left

-- The loop of `sendupdt_msg`. It copies `room` bytes, though the message may have fewer left, and sends
-- `next_size left` of the buffer. The result of `send` is kept unsigned, so -1 is no error: it adds 1 to `left` and takes 1 from `pos`.
unfoldable pub sendupdt_loop : Kernel → ℕ → ℕ → ℕ → List ℕ → ℕ → ℕ → Outcome (List ℕ)
sendupdt_loop kernel zero call room buf pos left = running
sendupdt_loop kernel (suc fuel) call room buf pos left =
    let packet = take (next_size left) (fill room (drop pos buf)) in
    let retry = sendupdt_loop kernel fuel (call + 1) send_size buf (pos - 1) (left + 1) in
    let more =
      λ (sent : ℕ). sendupdt_loop kernel fuel (call + 1) send_size buf (pos + sent) (left - sent) in
    if left == 0
    then done []
    else if ltb (length (drop pos buf)) room
    then fault
    else elim (kernel call (next_size left)) [
      | none ↦ retry
      | some sent ↦ (do rest ← more sent; done (take sent packet ++ rest))
    ]

-- The loop of `sendfile_msg`, which copies as many bytes as it sends.
unfoldable pub sendfile_loop : Kernel → ℕ → ℕ → List ℕ → ℕ → ℕ → Outcome (List ℕ)
sendfile_loop kernel zero call buf pos left = running
sendfile_loop kernel (suc fuel) call buf pos left =
    let packet = take (next_size left) (fill (next_size left) (drop pos buf)) in
    let retry = sendfile_loop kernel fuel (call + 1) buf (pos - 1) (left + 1) in
    let more = λ (sent : ℕ). sendfile_loop kernel fuel (call + 1) buf (pos + sent) (left - sent) in
    if left == 0 then done [] else elim (kernel call (next_size left)) [
      | none ↦ retry
      | some sent ↦ (do rest ← more sent; done (take sent packet ++ rest))
    ]

-- What `send` takes of the first packet; how much that is does not bear on the rest.
abbrev pub first_sent : Kernel → List ℕ → List ℕ
first_sent kernel packet = elim (kernel 0 send_size) [ none ↦ [] | some sent ↦ take sent packet ]

-- `sendupdt_msg`: the bytes on the wire. The header takes 12 of the 1024 bytes of the first packet.
unfoldable pub sendupdt_msg : Kernel → ℕ → Msg → Outcome (List ℕ)
sendupdt_msg kernel fuel m =
    let room = send_size - 12 in
    let copied = if ltb m.size room then take m.size m.buf else take room m.buf in
    let packet = preamble m ++ (copied ++ replicate (room - length copied) 0) in
    do
      rest ← sendupdt_loop kernel fuel 1 room m.buf room (m.size - room)
      done (first_sent kernel packet ++ rest)

abbrev pub header_size : ℕ
header_size = 256

-- The bytes left in the header for the file's name.
abbrev pub name_size : ℕ
name_size = 244

-- `sendfile_msg`, with what `readlink` says of the descriptor. The bytes of the map behind the end of
-- the file are zero up to the end of its page.
unfoldable pub sendfile_msg : Kernel → Option (List ℕ) → ℕ → Msg → Outcome (List ℕ)
sendfile_msg kernel none fuel m = failed
sendfile_msg kernel (some path) fuel m =
    let room = send_size - header_size in
    let copied = take room m.buf in
    let packet =
      preamble m
      ++ (getname (array name_size path) name_size
          ++ (copied ++ replicate (room - length copied) 0)) in
    do
      rest ← sendfile_loop kernel fuel 1 m.buf room (m.size - room)
      done (first_sent kernel packet ++ rest)

unfoldable pub send_msg : Kernel → Option (List ℕ) → ℕ → Msg → Outcome (List ℕ)
send_msg kernel path fuel m =
    if is_file_msg m.type then sendfile_msg kernel path fuel m else sendupdt_msg kernel fuel m
