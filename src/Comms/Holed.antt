-- ===== src/Comms/Holed.antt =====
-- What `sendupdt_msg` of src/comms.c does to a payload that does not fit its first packet.
use cs550_pa.Prelude.{
  ℕ, zero, suc, ◌+◌, ◌-◌, ◌≤◌, ◌<◌, ◌≡◌, ap, refl, sym, drop-length, ◌*◌, ◌/◌, ◌%◌, ◌||◌, ◌&&◌, not,
  ltb, ◌==◌, Bool, true, false, Bool-cases, inl, inr, if◌then◌else◌, ◌∙◌, arith, some, List, ◌++◌,
  length, take, drop, replicate, take-take, drop-drop, length-drop, append_assoc, take-append_ge,
  take-replicate, length-take,
}
use cs550_pa.Comms.{Msg, IsSized, done, fault}
use cs550_pa.Comms.Send.{preamble, sendupdt_msg, Kernel, send_size, fill, next_size, sendupdt_loop}
use cs550_pa.Comms.Transmit.{
  sendupdt_loop_end, sendupdt_loop_turn, sendupdt_loop_faulty, sendupdt_loop_over, packet_prefix,
  sent-rest, length-preamble, copied_front, first_whole, packet_full, pad-full,
}

-- Every `send` takes all that it is given.
abbrev pub TakesAll : Kernel → Type 0
TakesAll kernel = (i n : ℕ) → kernel i n ≡ some n

-- The second packet of a longer payload: 1012 bytes are copied and up to 1024 are sent, so up to 12
-- bytes of the payload go out as zeros.
unfoldable pub holed : List ℕ → List ℕ
holed rest =
    take 1012 rest
    ++ (replicate (next_size (length rest) - 1012) 0 ++ drop (next_size (length rest)) rest)

next_size_bounds :
    (n : ℕ) → 1012 ≤ n → (1012 ≤ next_size n) × (next_size n ≤ 1024) × (next_size n ≤ n)
next_size_bounds n h = ground arith

-- For any number of bytes between those that were copied and those of the whole buffer.
take-fill :
    (n : ℕ) (rest : List ℕ)
    → 1012 ≤ length rest
    → 1012 ≤ n
    → n ≤ 1024
    → take n (fill 1012 rest) ≡ take 1012 rest ++ replicate (n - 1012) 0
unfolding fill
take-fill n rest l h k =
    let front : length (take 1012 rest) ≡ 1012 = omega (arith, length-take 1012 rest) in
    take-append_ge n (take 1012 rest) _ (omega (arith, front))
    ∙ rw front (ap (◌++◌ (take 1012 rest)) (take-replicate (n - 1012) 12 zero (omega arith)))

packet-holed :
    (left : ℕ) (rest : List ℕ)
    → length rest ≡ left
    → 1012 ≤ left
    → take (next_size left) (take (next_size left) (fill 1012 rest)) ++ drop (next_size left) rest
      ≡ holed rest
unfolding holed
packet-holed left rest e h = rw (← e) (
    let (low, high, fits) = next_size_bounds (length rest) (omega (arith, e)) in
    let n = next_size (length rest) in
    rw (take-take n n (fill 1012 rest) (omega arith), take-fill n rest (omega (arith, e)) low high)
      (append_assoc (take 1012 rest) (replicate (n - 1012) 0) (drop n rest)))

-- Whole packets are sent as they are.
sendupdt_loop_whole :
    (kernel : Kernel) (k fuel call : ℕ) (buf : List ℕ) (pos : ℕ)
    → TakesAll kernel
    → length buf - pos ≡ 1024 * k
    → k < fuel
    → sendupdt_loop kernel fuel call send_size buf pos (1024 * k) ≡ done (drop pos buf)
sendupdt_loop_whole kernel k zero call buf pos all e h = absurd (omega arith)
sendupdt_loop_whole kernel zero (suc fuel) call buf pos all e h =
    sendupdt_loop_end kernel (suc fuel) call send_size buf pos 0 refl (omega arith)
    ∙ ap done (sym (drop-length pos buf (omega arith)))
sendupdt_loop_whole kernel (suc k) (suc fuel) call buf pos all e h =
    let n : next_size (1024 * suc k) ≡ 1024 = ground arith in
    let less : 1024 * suc k - next_size (1024 * suc k) ≡ 1024 * k = omega (arith, n) in
    let rest : List ℕ = drop (pos + next_size (1024 * suc k)) buf in
    sendupdt_loop_turn kernel fuel call send_size buf rest pos (1024 * suc k) (omega arith)
      (omega (arith, n)) e (all call (next_size (1024 * suc k)))
      (rw less (
        sendupdt_loop_whole kernel k fuel (call + 1) buf (pos + next_size (1024 * suc k)) all
          (omega (arith, e, n)) (omega arith)))
    ∙ ap done (
        ap (λ xs. xs ++ rest)
          (packet_prefix (next_size (1024 * suc k)) send_size (1024 * suc k) (drop pos buf)
            (omega arith) (omega (arith, n)) (omega (arith, length-drop pos buf, e)))
        ∙ sent-rest (next_size (1024 * suc k)) pos buf)

-- Behind the whole packets, the last copy reads past the end.
sendupdt_loop_cut :
    (kernel : Kernel) (k r fuel call : ℕ) (buf : List ℕ) (pos : ℕ)
    → TakesAll kernel
    → 0 < r
    → r < 1024
    → length buf - pos ≡ 1024 * k + r
    → k < fuel
    → sendupdt_loop kernel fuel call send_size buf pos (1024 * k + r) ≡ fault
sendupdt_loop_cut kernel k r zero call buf pos all p q e h = absurd (omega arith)
sendupdt_loop_cut kernel zero r (suc fuel) call buf pos all p q e h =
    sendupdt_loop_over kernel (suc fuel) call send_size buf pos (1024 * 0 + r) (omega arith)
      (omega arith) (omega arith)
sendupdt_loop_cut kernel (suc k) r (suc fuel) call buf pos all p q e h =
    let n : next_size (1024 * suc k + r) ≡ 1024 = ground arith in
    let less : 1024 * suc k + r - next_size (1024 * suc k + r) ≡ 1024 * k + r = omega (arith, n) in
    sendupdt_loop_faulty kernel fuel call send_size buf pos (1024 * suc k + r) (omega arith)
      (all call (next_size (1024 * suc k + r)))
      (rw less (
        sendupdt_loop_cut kernel k r fuel (call + 1) buf (pos + next_size (1024 * suc k + r)) all p
          q (omega (arith, e, n)) (omega arith)))

-- The sizes of which the sender reads past the end of the payload, when every `send` takes all.
abbrev pub overreads : ℕ → Bool
overreads size = ltb size 2024 || (ltb 2036 size && not ((size - 2036) % 1024 == 0))

-- What follows the second packet of a payload of at least 2024 bytes.
third_on :
    (kernel : Kernel) (fuel : ℕ) (buf : List ℕ) (size : ℕ)
    → TakesAll kernel
    → length buf ≡ size
    → 2024 ≤ size
    → size < suc fuel
    → let n = next_size (size - 1012) in
      sendupdt_loop kernel fuel 2 send_size buf (1012 + n) (size - 1012 - n)
      ≡ (if overreads size then fault else done (drop (1012 + n) buf))
third_on kernel fuel buf size all e h f = elim (Bool-cases (ltb 2036 size)) [
  | inr short ↦
      let n : next_size (size - 1012) ≡ size - 1012 = ground (arith, short) in
      let fits : overreads size ≡ false = ground (arith, short) in
      rw fits (
        sendupdt_loop_end kernel fuel 2 send_size buf (1012 + next_size (size - 1012))
          (size - 1012 - next_size (size - 1012)) (omega (arith, n)) (omega arith)
        ∙ ap done (sym (drop-length (1012 + next_size (size - 1012)) buf (omega (arith, n, e)))))
  | inl long ↦
      let more : 2036 < size = ground (arith, long) in
      let n : next_size (size - 1012) ≡ 1024 = ground (arith, more) in
      let k = (size - 2036) / 1024 in
      let r = (size - 2036) % 1024 in
      let left : size - 1012 - next_size (size - 1012) ≡ 1024 * k + r = omega (arith, n) in
      elim (Bool-cases (r == 0)) [
        | inl none_left ↦
            let zero_left : r ≡ 0 = ground (arith, none_left) in
            let fits : overreads size ≡ false = ground (arith, long, none_left, more) in
            let whole : size - 1012 - next_size (size - 1012) ≡ 1024 * k =
              omega (arith, left, zero_left) in
            rw (fits, whole)
              (sendupdt_loop_whole kernel k fuel 2 buf (1012 + next_size (size - 1012)) all
                (omega (arith, e, whole)) (omega (arith, more)))
        | inr some_left ↦
            let over : overreads size ≡ true = ground (arith, long, some_left, more) in
            rw (over, left)
              (sendupdt_loop_cut kernel k r fuel 2 buf (1012 + next_size (size - 1012)) all
                (ground (arith, some_left)) (omega arith) (omega (arith, e, left))
                (omega (arith, more)))
      ]
]

second_on :
    (kernel : Kernel) (fuel : ℕ) (buf : List ℕ) (size : ℕ)
    → TakesAll kernel
    → length buf ≡ size
    → 1012 < size
    → size < fuel
    → sendupdt_loop kernel fuel 1 1012 buf 1012 (size - 1012)
      ≡ (if overreads size then fault else done (holed (drop 1012 buf)))
second_on kernel zero buf size all e h f = absurd (omega arith)
second_on kernel (suc fuel) buf size all e h f = elim (Bool-cases (ltb size 2024)) [
  | inl small ↦
      let over : overreads size ≡ true = ground (arith, small) in
      rw over (
        sendupdt_loop_over kernel (suc fuel) 1 1012 buf 1012 (size - 1012) (omega arith)
          (ground (arith, small, e)) (omega arith))
  | inr large ↦
      let n = next_size (size - 1012) in
      let enough : 2024 ≤ size = ground (arith, large) in
      let later = third_on kernel fuel buf size all e enough f in
      elim (Bool-cases (overreads size)) [
        | inl over ↦ rw over (
            sendupdt_loop_faulty kernel fuel 1 1012 buf 1012 (size - 1012) (omega arith) (all 1 n)
              (rw over at later))
        | inr fits ↦ rw fits (
            sendupdt_loop_turn kernel fuel 1 1012 buf (drop (1012 + n) buf) 1012 (size - 1012)
              (omega arith) (next_size_bounds (size - 1012) (omega (arith, enough))).0
              (omega (arith, e)) (all 1 n) (rw fits at later)
            ∙ rw (← drop-drop 1012 n buf) (
                ap done (
                  packet-holed (size - 1012) (drop 1012 buf)
                    (omega (arith, length-drop 1012 buf, e)) (omega (arith, enough)))))
      ]
]

-- A payload of more than 1012 bytes, even if every `send` takes all that it is given: below 2024 bytes
-- the sender reads past its end, and so it does above 2036 unless whole packets of 1024 follow; the others
-- are sent with a hole, in which the bytes of the payload from 2024 on to the end of the second packet, 12
-- at most, go out as zeros. The fuel is more than the size.
pub sendupdt_msg-holed :
    (kernel : Kernel) (fuel : ℕ) (m : Msg)
    → IsSized m
    → TakesAll kernel
    → 1012 < m.size
    → m.size < fuel
    → sendupdt_msg kernel fuel m ≡ (
        if overreads m.size
        then fault
        else done (preamble m ++ (take 1012 m.buf ++ holed (drop 1012 m.buf))))
unfolding sendupdt_msg
sendupdt_msg-holed kernel fuel m s all large enough =
    let packet = preamble m ++ (take 1012 m.buf ++ replicate (1012 - length (take 1012 m.buf)) 0) in
    let whole =
      first_whole kernel packet (all 0 1024)
        (packet_full m 1012 (preamble m) (omega (arith, length-preamble m))) in
    rw (copied_front m 1012 s, second_on kernel fuel m.buf m.size all s.sized large enough)
      (elim (Bool-cases (overreads m.size)) [
        | inl over ↦ rw over refl
        | inr fits ↦
            rw (fits, whole)
              (ap done (
                rw (pad-full 1012 m.buf (omega (arith, s.sized)))
                  (append_assoc (preamble m) (take 1012 m.buf) (holed (drop 1012 m.buf)))))
      ])
