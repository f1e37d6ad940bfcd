-- ===== src/Comms/Reassemble.antt =====
-- The receivers of src/comms.c put together what the deliveries bring, however the stream was cut.
use cs550_pa.Prelude.{
  ℕ, zero, suc, ◌+◌, ◌-◌, ◌≤◌, ◌<◌, ◌≡◌, refl, sym, ap, ◌∙◌, arith, some, List, [], ◌∷◌, ◌++◌, map,
  length, take, drop, length-append, length-drop, take-append_length, drop-append_length, drop-drop,
  append_split, append-nil, append_assoc, suc-eq-zero, inl, inr,
}
use cs550_pa.Comms.{Outcome, done}
use cs550_pa.Comms.Recv.{Delivery, received, broken, store_at, recv_loop}

-- The bytes of the deliveries, one after the other.
abbrev pub bytes_of : List (List ℕ) → List ℕ
bytes_of [] = []
bytes_of (c ∷ cs) = c ++ bytes_of cs

-- The block when `got` is at its start and `raw` behind it, and `c` is written behind `got`.
pub store_at-append :
    (header : ℕ) (got c raw : List ℕ)
    → length c ≤ length raw
    → store_at header (header + length got) c (got ++ raw)
      ≡ some (got ++ (c ++ drop (length c) raw))
unfolding store_at
store_at-append header got [] raw h = refl
store_at-append header got (b ∷ c) raw h =
    let from : header + length got - header ≡ length got = omega arith in
    rw from (
      rw (take-append_length (length got) got raw refl) (
        rw (← drop-drop (length got) (length (b ∷ c)) (got ++ raw)) (
          rw (drop-append_length (length got) got raw refl)
            (ground (arith, length-append got raw)))))

-- The loop returns with a block of `cap` bytes, whose first `n` are `full`.
abbrev pub Fills : ℕ → List ℕ → ℕ → Outcome (List ℕ) → Type 0
Fills n full cap r = (b : List ℕ) × (r ≡ done b) × (take n b ≡ full) × (length b ≡ cap)

pub Fills-eq :
    {n n' cap cap' : ℕ} {full full' : List ℕ} {r r' : Outcome (List ℕ)}
    → n ≡ n'
    → full ≡ full'
    → cap ≡ cap'
    → r' ≡ r
    → Fills n full cap r
    → Fills n' full' cap' r'
Fills-eq en ef ec er (b, ends, filled, size) = (b, er ∙ ends, rw (← en, ← ef) filled, size ∙ ec)

recv_loop_end :
    (fuel : ℕ) (events : List Delivery) (header : ℕ) (block : List ℕ) (at : ℕ)
    → recv_loop (suc fuel) events header block at 0 ≡ done block
unfolding recv_loop
recv_loop_end fuel [] header block at = refl
recv_loop_end fuel (broken ∷ events) header block at = refl
recv_loop_end fuel (received c ∷ events) header block at = refl

pub recv_loop_full :
    (fuel : ℕ) (events : List Delivery) (header : ℕ) (block : List ℕ) (at : ℕ)
    → 0 < fuel
    → recv_loop fuel events header block at 0 ≡ done block
recv_loop_full zero events header block at h = absurd (omega arith)
recv_loop_full (suc fuel) events header block at h = recv_loop_end fuel events header block at

pub recv_loop_same :
    (fuel : ℕ) (events : List Delivery) (header : ℕ) {block block' : List ℕ} {at at' left left' : ℕ}
    → block ≡ block'
    → at ≡ at'
    → left ≡ left'
    → recv_loop fuel events header block at left ≡ recv_loop fuel events header block' at' left'
recv_loop_same fuel events header p q r = cc

pub recv_loop_step :
    (fuel : ℕ) (events : List Delivery) (header left : ℕ) (got c raw : List ℕ)
    → length c ≤ length raw
    → recv_loop
        (suc fuel)
        (received c ∷ events)
        header
        (got ++ raw)
        (header + length got)
        (suc left)
      ≡ recv_loop fuel events header
          (got ++ (c ++ drop (length c) raw))
          (header + length got + length c)
          (suc left - length c)
unfolding recv_loop
recv_loop_step fuel events header left got c raw h =
    rw (suc-eq-zero left, store_at-append header got c raw h)

cut_full :
    (got rest more : List ℕ) → take (length got + length rest) ((got ++ rest) ++ more) ≡ got ++ rest
cut_full got rest more =
    take-append_length (length got + length rest) (got ++ rest) more (length-append got rest)

-- If the deliveries still to come bring the missing bytes `rest` first, and what comes behind these fits
-- the block too, then with more fuel than deliveries the loop returns: the block keeps its size, and
-- begins with what was there and `rest`, however the stream was cut.
pub recv_loop-Fills :
    (cs : List (List ℕ)) (fuel header : ℕ) (got raw rest padding : List ℕ)
    → bytes_of cs ≡ rest ++ padding
    → length (rest ++ padding) ≤ length raw
    → length cs < fuel
    → Fills
        (length got + length rest)
        (got ++ rest)
        (length got + length raw)
        (recv_loop fuel (map received cs) header (got ++ raw) (header + length got) (length rest))
recv_loop-Fills cs zero header got raw rest padding e room f = absurd (omega arith)
recv_loop-Fills cs (suc fuel) header got raw [] padding e room f = (
  got ++ raw,
  recv_loop_end fuel (map received cs) header (got ++ raw) (header + length got),
  rw (append-nil got) (take-append_length (length got + 0) got raw (omega arith)),
  length-append got raw,
)
recv_loop-Fills [] (suc fuel) header got raw (x ∷ rest) padding e room f = cc
recv_loop-Fills (c ∷ cs) (suc fuel) header got raw (x ∷ rest) padding e room f =
    let fits : length c ≤ length raw =
      omega (arith, ap (length {A = ℕ}) e, length-append c (bytes_of cs)) in
    let events = map received cs in
    let step = recv_loop_step fuel events header (length rest) got c raw fits in
    elim (append_split c (bytes_of cs) (x ∷ rest) padding e) [
      | inl (r', front, back) ↦
          let cut = ap (length {A = ℕ}) front in
          let cut_size = length-append c r' in
          Fills-eq (omega (arith, length-append got c, cut, cut_size))
            (append_assoc got c r' ∙ ap (◌++◌ got) (sym front))
            (omega (arith, length-append got c, length-drop (length c) raw, fits))
            (step
              ∙ recv_loop_same fuel events header (sym (append_assoc got c (drop (length c) raw)))
                  (omega (arith, length-append got c)) (omega (arith, cut, cut_size)))
            (recv_loop-Fills cs fuel header (got ++ c) (drop (length c) raw) r' padding back
              (omega (
                arith,
                room,
                cut,
                cut_size,
                length-append r' padding,
                length-append (x ∷ rest) padding,
                length-drop (length c) raw,
              ))
              (omega arith))
      | inr (p', whole, _) ↦
          let size = ap (length {A = ℕ}) whole in
          let size_of = length-append (x ∷ rest) p' in
          let behind = drop (length c) raw in
          (
            got ++ (c ++ behind),
            step
                ∙ recv_loop_same fuel events header refl refl (omega (arith, size, size_of))
                ∙ recv_loop_full fuel events header (got ++ (c ++ behind)) _ (omega arith),
            rw (whole, append_assoc (x ∷ rest) p' (drop (length ((x ∷ rest) ++ p')) raw))
                (rw (← append_assoc got (x ∷ rest) (p' ++ drop (length ((x ∷ rest) ++ p')) raw))
                  (cut_full got (x ∷ rest) (p' ++ drop (length ((x ∷ rest) ++ p')) raw))),
            omega (
              arith,
              fits,
              length-append got (c ++ behind),
              length-append c behind,
              length-drop (length c) raw,
            ),
          )
    ]
