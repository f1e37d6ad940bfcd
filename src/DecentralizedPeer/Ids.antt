-- ===== src/DecentralizedPeer/Ids.antt =====
-- The ids of the queries that the peers of src/decentralized_peer.cpp issue.
use cs550_pa.Prelude.{◌+◌, ◌^◌, ◌<◌, ◌≡◌, arith, bits_int}
use cs550_pa.DecentralizedPeer.{Peer, get_message_id}

-- Two peers, or one peer twice, issue the same id only if they have the same number and have issued as
-- many ids before. A peer's number is a byte, and neither has issued 2 ^ 24 - 1 ids yet.
pub get_message_id_unique :
    (p q : Peer)
    → p.peer_id < 256
    → q.peer_id < 256
    → p.message_count + 1 < 2 ^ 24
    → q.message_count + 1 < 2 ^ 24
    → (get_message_id p).0 ≡ (get_message_id q).0
    → (p.peer_id ≡ q.peer_id) × (p.message_count ≡ q.message_count)
unfolding get_message_id bits_int
get_message_id_unique p q hp hq cp cq e = ground arith

-- Two peers with neighbouring numbers issue the same id when the lower one has issued 2^24 ids more than
-- the other. The numbers are bytes, and the count is below 2^32.
pub get_message_id_collides :
    (p q : Peer)
    → q.peer_id ≡ p.peer_id + 1
    → q.peer_id < 256
    → p.message_count ≡ q.message_count + 2 ^ 24
    → p.message_count + 1 < 2 ^ 32
    → (get_message_id p).0 ≡ (get_message_id q).0
unfolding get_message_id bits_int
get_message_id_collides p q e hq c h = ground arith
