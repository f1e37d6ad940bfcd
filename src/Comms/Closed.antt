-- ===== src/Comms/Closed.antt =====
-- The receive loop of src/comms.c when the other side closes the stream too early.
use cs550_pa.Prelude.{
  ℕ, zero, suc, ◌+◌, ◌-◌, ◌≤◌, ◌<◌, ◌≡◌, refl, sym, ◌∙◌, arith, List, [], ◌∷◌, ◌++◌, map, length,
  drop, length-append, length-drop, append_assoc, suc-eq-zero,
}
use cs550_pa.Comms.{running}
use cs550_pa.Comms.Recv.{received, recv_loop}
use cs550_pa.Comms.Reassemble.{bytes_of, recv_loop_step, recv_loop_same}

recv_loop_silent :
    (fuel header at left : ℕ) (block : List ℕ)
    → recv_loop fuel [] header block at (suc left) ≡ running
unfolding recv_loop
recv_loop_silent zero header at left block = refl
recv_loop_silent (suc fuel) header at left block =
    rw (suc-eq-zero left) (recv_loop_silent fuel header at left block)

-- If the deliveries that are still to come bring fewer bytes than are missing, and fit the block, the
-- loop does not return with any fuel: after the last of them `recv` gives nothing, and the loop takes
-- that for a delivery.
pub recv_loop-closed :
    (fuel : ℕ) (cs : List (List ℕ)) (header left : ℕ) (got raw : List ℕ)
    → length (bytes_of cs) < left
    → length (bytes_of cs) ≤ length raw
    → recv_loop fuel (map received cs) header (got ++ raw) (header + length got) left ≡ running
unfolding recv_loop
recv_loop-closed zero cs header left got raw h room = refl
recv_loop-closed fuel cs header zero got raw h room = absurd (omega arith)
recv_loop-closed (suc fuel) [] header (suc left) got raw h room =
    recv_loop_silent (suc fuel) header (header + length got) left (got ++ raw)
recv_loop-closed (suc fuel) (c ∷ cs) header (suc left) got raw h room =
    let sizes = length-append c (bytes_of cs) in
    recv_loop_step fuel (map received cs) header left got c raw (omega (arith, sizes, room))
    ∙ recv_loop_same fuel (map received cs) header (sym (append_assoc got c (drop (length c) raw)))
        (omega (arith, length-append got c)) refl
    ∙ recv_loop-closed fuel cs header (suc left - length c) (got ++ c) (drop (length c) raw)
        (omega (arith, sizes, h)) (omega (arith, sizes, room, length-drop (length c) raw))
