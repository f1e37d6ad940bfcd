-- ===== src/Exchange.antt =====
-- src/messages.cpp: one message to a server, and one message with its reply.
pub mod Reply
mod Tests
use cs550_pa.Prelude.{ℕ, Option, List, [], ℤ, pos, negsuc}
use cs550_pa.Comms.{Conn, Msg, Malloc, Outcome, done, failed, fault, running, null_msg}
use cs550_pa.Comms.Send.{Kernel, send_msg}
use cs550_pa.Comms.Recv.{Delivery, FileSystem, recv_msg}

-- `{nullptr, 0, NULL_MSG}`, by which the program says that no message has come.
abbrev pub null_message : Msg
null_message = record { buf = []; size = 0; type = null_msg }

unfoldable pub send_once : Kernel → Option (List ℕ) → ℕ → Msg → Outcome ℤ
send_once kernel path fuel message = elim (send_msg kernel path fuel message) [
  | done wire ↦ done (pos 0)
  | failed ↦ done (negsuc 0)
  | fault ↦ fault
  | running ↦ running
]

-- The reply, or the null message if `recv_msg` reports an error.
unfoldable pub received_reply : Malloc → FileSystem → ℕ → List Delivery → Outcome Msg
received_reply malloc fs fuel events = elim (recv_msg malloc fs fuel events) [
  | done r ↦ done r.msg
  | failed ↦ done null_message
  | fault ↦ fault
  | running ↦ running
]

unfoldable pub send_and_recv :
    Kernel → Option (List ℕ) → ℕ → Malloc → FileSystem → ℕ → List Delivery → Msg → Outcome Msg
send_and_recv kernel path send_fuel malloc fs fuel events request =
    elim (send_msg kernel path send_fuel request) [
      | done wire ↦ received_reply malloc fs fuel events
      | failed ↦ done null_message
      | fault ↦ fault
      | running ↦ running
    ]

-- What a peer sees of the network: the reply to a request at a connection, and the status of a message
-- that has none.
pub record Net : Type 0 where
  pub ask : Conn → Msg → Msg
  pub once : Conn → Msg → ℤ
