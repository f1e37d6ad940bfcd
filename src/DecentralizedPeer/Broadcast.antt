-- ===== src/DecentralizedPeer/Broadcast.antt =====
-- `broadcast_query` of src/decentralized_peer.cpp, and the searches that rest on it.
use mathlib.Core.List.{Memᴰ}
use cs550_pa.Prelude.{ℕ, ◌+◌, ◌≡◌, inl, inr, some, List, ℤ, IsInt}
use cs550_pa.Comms.{Conn, Msg, Malloc, no_conn, dup_request, status_ok}
use cs550_pa.Messages.{ip_info_size, create_id_conn}
use cs550_pa.Messages.RoundTrip.{IsEndpoint, moved}
use cs550_pa.DecentralizedPeer.Stores.{IsDup, settle_type, stored_type}
use cs550_pa.DecentralizedPeer.{World, Peer, put_type, others, bare, broadcast_query}
use cs550_pa.DecentralizedPeer.Replies.{
  KeepsReplies, Broadcasts, done_by, stored_by, no_answers, some_answer,
}

pub broadcast_query-Broadcasts :
    (w : World) (sender : Conn) (request : Msg) (peer : Peer)
    → KeepsReplies w.finish
    → Broadcasts w sender request peer (broadcast_query w sender request peer)
unfolding broadcast_query
broadcast_query-Broadcasts w sender request peer keeps =
    elim (settle_type (bare dup_request) (done_by w sender request peer keeps)) [
      | inl (e, nothing) ↦ inl (no_answers w sender request peer keeps nothing)
      | inr (t, m, e) ↦
          let (n, asked, stored) = stored_by w sender request peer keeps (put_type t) m in
          some_answer w sender request peer keeps n asked (stored_type (w.ask n request) t stored).0
            t m e
    ]

-- A neighbour's reply: a DUP_REQUEST, or STATUS_OK with an id and the endpoint of a holder of the file.
pub data Reply (malloc : Malloc) (holder : Conn → Type 0) (m : Msg) : Type 0 where
  duplicate : m.type ≡ dup_request → Reply malloc holder m
  held :
      (c : Conn) (id : ℤ) (raw : List ℕ)
      → holder c
      → IsEndpoint c
      → IsInt id
      → malloc (ip_info_size + 4) ≡ some raw
      → create_id_conn malloc id c status_ok ≡ some m
      → Reply malloc holder m

-- How a search over the neighbours ends: nobody has answered, or the endpoint of a holder is known.
pub data Searched (w : World) (holder : Conn → Type 0) (request : Msg) (peer : Peer) (c : Conn)
    : Type 0 where
  nowhere :
      ((n : Conn) → Memᴰ n (others peer.home peer.neighbors) → IsDup (w.ask n request))
      → c ≡ no_conn
      → Searched w holder request peer c
  found_at : (h : Conn) → holder h → c ≡ moved h w.junk → Searched w holder request peer c
