-- ===== src/Comms/Dispatch.antt =====
-- How `recv_msg` of src/comms.c chooses between its two receivers.
use cs550_pa.Prelude.{
  ℕ, ◌+◌, ◌-◌, ◌^◌, ◌≤◌, ◌<◌, ◌≡◌, ◌∙◌, arith, List, ◌++◌, length, take, drop, replicate,
  length-append, take-length, append_assoc, if◌then◌else◌, IsInt, ℤ, bits_int,
}
use cs550_pa.Word.{of_le_bytes}
use cs550_pa.Comms.{Msg, Malloc, is_file_msg}
use cs550_pa.Comms.Name.{array}
use cs550_pa.Comms.Send.{preamble, send_size}
use cs550_pa.Comms.Recv.{Delivery, FileSystem, recvupdt_msg, recvfile_msg, recv_first}
use cs550_pa.Comms.Transmit.{length-preamble}
use cs550_pa.Comms.Header.{read_type, read_size}

array-short :
    (len : ℕ) (bytes : List ℕ)
    → length bytes ≤ len
    → array len bytes ≡ bytes ++ replicate (len - length bytes) 0
unfolding array
array-short len bytes h = rw (take-length len bytes h)

recv_first-parsed :
    (malloc : Malloc) (fs : FileSystem) (fuel : ℕ) (events : List Delivery) (bytes recvbuf : List ℕ)
    (type : ℤ) (size : ℕ)
    → array send_size bytes ≡ recvbuf
    → bits_int (of_le_bytes (take 4 recvbuf)) ≡ type
    → of_le_bytes (take 8 (drop 4 recvbuf)) ≡ size
    → recv_first malloc fs fuel events bytes ≡ (
        if is_file_msg type
        then recvfile_msg fs fuel events size (length bytes) recvbuf
        else recvupdt_msg malloc fuel events type size (length bytes) recvbuf)
unfolding recv_first
recv_first-parsed malloc fs fuel events bytes recvbuf type size p q r = rw (p, q, r)

-- A first delivery that holds the whole preamble is dispatched by the type and the size of the message.
pub recv_first-dispatch :
    (malloc : Malloc) (fs : FileSystem) (fuel : ℕ) (events : List Delivery) (m : Msg)
    (front : List ℕ)
    → IsInt m.type
    → m.size < 2 ^ 64
    → 12 + length front ≤ 1024
    → let recvbuf = preamble m ++ (front ++ replicate (1012 - length front) 0) in
      recv_first malloc fs fuel events (preamble m ++ front) ≡ (
        if is_file_msg m.type
        then recvfile_msg fs fuel events m.size (12 + length front) recvbuf
        else recvupdt_msg malloc fuel events m.type m.size (12 + length front) recvbuf)
recv_first-dispatch malloc fs fuel events m front int small fits =
    let more = front ++ replicate (1012 - length front) 0 in
    let size : length (preamble m ++ front) ≡ 12 + length front =
      omega (arith, length-append (preamble m) front, length-preamble m) in
    let pad : 1024 - length (preamble m ++ front) ≡ 1012 - length front = omega (arith, size) in
    recv_first-parsed malloc fs fuel events (preamble m ++ front) (preamble m ++ more) m.type m.size
      (array-short 1024 (preamble m ++ front) (omega (arith, size))
        ∙ rw pad (append_assoc (preamble m) front (replicate (1012 - length front) 0)))
      (read_type m int more) (read_size m int more small)
    ∙ rw size
