-- ===== src/Exchange/Reply.antt =====
-- A request and its reply (src/messages.cpp).
use cs550_pa.Prelude.{
  ℕ, ◌+◌, ◌≤◌, ◌<◌, ◌≡◌, ◌⊎◌, Option, none, some, List, ◌∷◌, ◌++◌, map, length, false, IsInt,
}
use cs550_pa.Comms.{Msg, Malloc, IsSized, done, is_file_msg}
use cs550_pa.Comms.Send.{Kernel, send_msg, send_size, preamble}
use cs550_pa.Comms.Recv.{FileSystem, Delivery, Received, recv_msg, received}
use cs550_pa.Comms.Transmit.{InBounds, padded}
use cs550_pa.Comms.Reassemble.{bytes_of}
use cs550_pa.Comms.RoundTrip.{Allocates, Cuts, recv_msg-sendupdt_msg}
use cs550_pa.Exchange.{send_and_recv, received_reply}

-- How a server puts a reply on the wire, and how the client is able to read it.
pub record Replies (malloc : Malloc) (kernel : Kernel) (fuel : ℕ) (m : Msg) (raw first : List ℕ)
    (cs : List (List ℕ)) : Type 0 where
  pub sized : IsSized m
  pub int : IsInt m.type
  pub update : is_file_msg m.type ≡ false
  pub bounds : InBounds kernel m.size
  pub whole_packet : kernel 0 send_size ≡ some send_size
  pub alloc : Allocates malloc m.size raw
  pub cuts : Cuts 12 (preamble m ++ padded 1012 m.buf) first cs
  pub room : (12 + m.size ≤ length first) ⊎ (1012 ≤ m.size)
  pub enough : length cs < fuel

-- A request that is sent, and a reply that is received.
pub send_and_recv-sent :
    (client : Kernel) (path : Option (List ℕ)) (send_fuel fuel : ℕ) (malloc : Malloc)
    (fs : FileSystem) (events : List Delivery) (request : Msg) (wire : List ℕ) (r : Received)
    → send_msg client path send_fuel request ≡ done wire
    → recv_msg malloc fs fuel events ≡ done r
    → send_and_recv client path send_fuel malloc fs fuel events request ≡ done r.msg
unfolding send_and_recv received_reply
send_and_recv-sent client path send_fuel fuel malloc fs events request wire r sends got =
    rw (sends, send_and_recv, got, received_reply)

-- A client that sends its request without an error gets the very message that the server replies with:
-- what the server's `send_msg` puts on the wire are the deliveries from which `send_and_recv` returns the
-- reply. The reply is an update message of at most 1012 bytes, or of 2024 of which the second `send`
-- takes the last 1012, and the stream is cut as `Replies` says.
pub send_and_recv-reply :
    (client server : Kernel) (path : Option (List ℕ)) (send_fuel reply_fuel fuel : ℕ)
    (malloc : Malloc) (fs : FileSystem) (request reply : Msg) (wire raw first : List ℕ)
    (cs : List (List ℕ))
    → send_msg client path send_fuel request ≡ done wire
    → Replies malloc server fuel reply raw first cs
    → reply.size < reply_fuel
    → (send_msg server none reply_fuel reply ≡ done (first ++ bytes_of cs))
      × (send_and_recv client path send_fuel malloc fs fuel
            (received first ∷ map received cs)
            request
          ≡ done reply)
send_and_recv-reply client server path send_fuel reply_fuel fuel malloc fs request reply wire raw
      first cs sends r f =
    let (sent, got) =
      recv_msg-sendupdt_msg malloc fs server none reply_fuel fuel reply raw first cs r.sized r.int
        r.update r.bounds r.whole_packet f r.alloc r.cuts r.room r.enough in
    let events = received first ∷ map received cs in
    (
      sent,
      send_and_recv-sent client path send_fuel fuel malloc fs events request wire
          (record { msg = reply; stored = none }) sends got,
    )
