-- ===== src/DecentralizedPeer/Alone.antt =====
-- A broadcast of src/decentralized_peer.cpp that one neighbour answers.
use cs550_pa.Prelude.{◌≡◌, inl, inr, ap, ◌∙◌}
use cs550_pa.Comms.{Conn, Msg}
use cs550_pa.DecentralizedPeer.{World, Peer, broadcast_query}
use cs550_pa.DecentralizedPeer.Stores.{msg_eq}
use cs550_pa.DecentralizedPeer.Replies.{KeepsReplies, Answering, Broadcasts, others_back}
use cs550_pa.DecentralizedPeer.Broadcast.{broadcast_query-Broadcasts}

only_reply :
    (w : World) (sender : Conn) (request : Msg) (peer : Peer) (n : Conn) (r : Msg)
    → Answering w sender request peer n
    → ((m : Conn) → Answering w sender request peer m → m ≡ n)
    → Broadcasts w sender request peer r
    → r ≡ w.ask n request
only_reply w sender request peer n r a only (inl (all, e)) =
    cc (all n (others_back sender n peer.neighbors a.neighbor a.not_sender), a.answers)
only_reply w sender request peer n r a only (inr (b, k, t, ab, ak, at, eb, ek, et)) =
    msg_eq r (w.ask n request) (eb ∙ ap (λ (c : Conn). (w.ask c request).buf) (only b ab))
      (ek ∙ ap (λ (c : Conn). (w.ask c request).size) (only k ak))
      (et ∙ ap (λ (c : Conn). (w.ask c request).type) (only t at))

-- If exactly one of the neighbours that a broadcast asks replies with more than a DUP_REQUEST, the response
-- is the reply of that neighbour, whole, in whatever order the threads make their stores.
pub broadcast_query-alone :
    (w : World) (sender : Conn) (request : Msg) (peer : Peer) (n : Conn)
    → KeepsReplies w.finish
    → Answering w sender request peer n
    → ((m : Conn) → Answering w sender request peer m → m ≡ n)
    → broadcast_query w sender request peer ≡ w.ask n request
broadcast_query-alone w sender request peer n keeps a only =
    only_reply w sender request peer n (broadcast_query w sender request peer) a only
      (broadcast_query-Broadcasts w sender request peer keeps)
