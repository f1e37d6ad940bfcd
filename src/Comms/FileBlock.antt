-- ===== src/Comms/FileBlock.antt =====
-- The block that `recvfile_msg` of src/comms.c fills: the file, and padding behind it.
use cs550_pa.Prelude.{
  ℕ, zero, ◌+◌, ◌-◌, ◌≤◌, ◌<◌, ◌≡◌, refl, sym, ap, ◌∙◌, arith, List, [], ◌++◌, map, length, take,
  drop, replicate, length-append, length-take, length-drop, length-replicate, take-length,
  take-append_length, take-append_le, append_split, append-nil, append_assoc, take-append-drop, inl,
  inr,
}
use native.Mathlib.Decide.{dec_lt}
use cs550_pa.Comms.{done}
use cs550_pa.Comms.Recv.{received, recv_loop}
use cs550_pa.Comms.Transmit.{padded, pad-full}
use cs550_pa.Comms.Reassemble.{bytes_of, recv_loop-Fills, recv_loop_full, recv_loop_same, Fills-eq}

-- The bytes of the map with the file's in front.
pub padded_front : (buf : List ℕ) → (z : List ℕ) × (padded 768 buf ≡ buf ++ z)
unfolding padded
padded_front buf = elim (dec_lt (length buf) 768) [
  | yes h ↦
      let z = replicate (768 - length buf) 0 ++ drop 768 buf in
      (z, rw (take-length 768 buf (omega arith)))
  | no h ↦
      let nothing : List ℕ = [] in
      (
        nothing,
        sym (append_assoc (take 768 buf) _ (drop 768 buf))
            ∙ rw (pad-full 768 buf (omega arith)) (take-append-drop 768 buf ∙ sym (append-nil buf)),
      )
]

pub length-padded-le :
    (buf : List ℕ) (n : ℕ) → length buf ≤ n → 768 ≤ n → length (padded 768 buf) ≤ n
unfolding padded
length-padded-le buf n h k = omega (
  arith,
  length-append (take 768 buf) (replicate (768 - length (take 768 buf)) zero ++ drop 768 buf),
  length-append (replicate (768 - length (take 768 buf)) zero) (drop 768 buf),
  length-replicate (768 - length (take 768 buf)) zero,
  length-take 768 buf,
  length-drop 768 buf,
)

-- The loop ends with the file in front of the block.
pub fill_file :
    (cs : List (List ℕ)) (fuel : ℕ) (buf z front pages : List ℕ)
    → front ++ bytes_of cs ≡ buf ++ z
    → length (buf ++ z) ≤ length pages
    → length cs < fuel
    → (b : List ℕ) × (recv_loop fuel
          (map received cs)
          256
          (front ++ drop (length front) pages)
          (256 + length front)
          (length buf - length front)
        ≡ done b)
      × (take (length buf) b ≡ buf)
fill_file cs fuel buf z front pages e room enough =
    elim (append_split front (bytes_of cs) buf z e) [
      | inl (r, starts, behind) ↦
          let total : length buf ≡ length front + length r =
            omega (arith, ap (length {A = ℕ}) starts, length-append front r) in
          let (b, ends, filled, _) =
            Fills-eq (sym total) (sym starts) refl
              (recv_loop_same fuel (map received cs) 256 refl refl (omega (arith, total)))
              (recv_loop-Fills cs fuel 256 front (drop (length front) pages) r z behind
                (omega (
                  arith,
                  room,
                  total,
                  length-append buf z,
                  length-append r z,
                  length-drop (length front) pages,
                ))
                enough) in
          (b, ends, filled)
      | inr (more, starts, _) ↦ (
        front ++ drop (length front) pages,
        rw (none_left front buf more starts) (
            recv_loop_full fuel (map received cs) 256 _ (256 + length front)
              (omega (arith, enough))),
        take-append_le (length buf) front _ (longer front buf more starts)
            ∙ ap (take (length buf)) starts
            ∙ take-append_length (length buf) buf more refl,
      )
    ]
  where
    longer : (front buf more : List ℕ) → front ≡ buf ++ more → length buf ≤ length front
    longer front buf more p = omega (arith, ap (length {A = ℕ}) p, length-append buf more)

    none_left : (front buf more : List ℕ) → front ≡ buf ++ more → length buf - length front ≡ 0
    none_left front buf more p = omega (arith, longer front buf more p)
