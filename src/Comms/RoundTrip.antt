-- ===== src/Comms/RoundTrip.antt =====
-- A message that one side sends is the message that the other side receives (src/comms.c).
use cs550_pa.Prelude.{
  ℕ, zero, suc, ◌+◌, ◌-◌, ◌^◌, ◌≤◌, ◌<◌, ◌≡◌, refl, sym, ap, ◌∙◌, arith, Option, none, some, List,
  [], ◌∷◌, ◌++◌, map, length, take, drop, replicate, length-append, length-drop, take-length,
  take-append_length, drop-append_length, append-nil, append_assoc, ltb, leb, ◌&&◌, false,
  if◌then◌else◌, ◌⊎◌, inl, inr, IsInt, ℤ, suc-eq-zero, ge→ltb, take-append-drop, take-append_le,
  drop-length,
}
use native.Mathlib.Decide.{dec_lt, ℕ_discrete}
use cs550_pa.Comms.{Msg, Malloc, IsSized, done, is_file_msg}
use cs550_pa.Comms.Send.{Kernel, send_msg, preamble, send_size}
use cs550_pa.Comms.Recv.{
  Delivery, received, FileSystem, Received, store_at, recv_loop, bytes_left, recvupdt_msg, recv_msg,
}
use cs550_pa.Comms.Transmit.{InBounds, sendupdt_msg-padded, length-preamble, padded, pad-full}
use cs550_pa.Comms.Header.{bytes_left-eq, front_split}
use cs550_pa.Comms.Reassemble.{bytes_of, store_at-append, recv_loop-Fills, recv_loop_full}
use cs550_pa.Comms.Dispatch.{recv_first-dispatch}

-- How many bytes `recvupdt_msg` copies from a first delivery with `n` bytes behind the header.
unfoldable pub count_of : (n size : ℕ) → ℕ
count_of n size = if leb 12 (12 + n) && ltb (12 + n - 12) size then 12 + n - 12 else size

pub count_of_short : (n size : ℕ) → n < size → count_of n size ≡ n
unfolding count_of
count_of_short n size h = ground arith

count_of_long : (n size : ℕ) → size ≤ n → count_of n size ≡ size
unfolding count_of
count_of_long n size h = ground arith

recvupdt_msg_steps :
    (malloc : Malloc) (fuel : ℕ) (events : List Delivery) (type : ℤ) (size n c left : ℕ)
    (prv copied raw block full : List ℕ)
    → 0 < size
    → malloc size ≡ some raw
    → count_of n size ≡ c
    → c ≤ 1012
    → take c (drop 12 prv) ≡ copied
    → store_at 12 12 copied raw ≡ some block
    → bytes_left size 12 (12 + n) ≡ left
    → recv_loop fuel events 12 block (12 + n) left ≡ done full
    → recvupdt_msg malloc fuel events type size (12 + n) prv
      ≡ done (record { msg = record { buf = full; size = size; type = type }; stored = none })
unfolding recvupdt_msg count_of
recvupdt_msg_steps malloc fuel events type (suc size) n c left prv copied raw block full h alloc
      count fits copy stored missing loop =
    rw (suc-eq-zero size, alloc, count, ge→ltb 1012 c fits, copy, stored, missing, loop)
recvupdt_msg_steps malloc fuel events type zero n c left prv copied raw block full h _ _ _ _ _ _ _ =
    absurd (omega arith)

padded_short : (buf : List ℕ) → length buf ≤ 1012 → (z : List ℕ) × (padded 1012 buf ≡ buf ++ z)
unfolding padded
padded_short buf h =
    let z = replicate (1012 - length buf) 0 ++ drop 1012 buf in (z, rw (take-length 1012 buf h))

padded_long : (buf : List ℕ) → 1012 ≤ length buf → padded 1012 buf ≡ buf
unfolding padded
padded_long buf h =
    sym (append_assoc (take 1012 buf) _ (drop 1012 buf))
    ∙ rw (pad-full 1012 buf h) (take-append-drop 1012 buf)

-- The message that `recvupdt_msg` is to return.
abbrev pub update_of : Msg → Received
update_of m = record { msg = m; stored = none }

-- What both sides agree on while a message with a buffer is received.
record Agreed (malloc : Malloc) (m : Msg) (raw front : List ℕ) (cs : List (List ℕ)) (fuel : ℕ)
    : Type 0 where
  sized : length m.buf ≡ m.size
  nonempty : 0 < m.size
  small : m.size + 12 < 2 ^ 31
  first : 12 + length front ≤ 1024
  alloc : malloc m.size ≡ some raw
  block : length raw ≡ m.size
  stream : front ++ bytes_of cs ≡ padded 1012 m.buf
  enough : length cs < fuel

module _ {malloc : Malloc} {m : Msg} {raw front : List ℕ} {cs : List (List ℕ)} {fuel : ℕ}
    (a : Agreed malloc m raw front cs fuel) where
  abbrev recvbuf : List ℕ
  recvbuf = preamble m ++ (front ++ replicate (1012 - length front) 0)

  behind_header : drop 12 recvbuf ≡ front ++ replicate (1012 - length front) 0
  behind_header = drop-append_length 12 (preamble m) _ (length-preamble m)

  recvupdt_msg_long :
      m.size ≤ length front
      → recvupdt_msg malloc fuel (map received cs) m.type m.size (12 + length front) recvbuf
        ≡ done (update_of m)
  recvupdt_msg_long h =
      let events = map received cs in
      recvupdt_msg_steps malloc fuel events m.type m.size (length front) m.size 0 recvbuf m.buf raw
        m.buf m.buf a.nonempty a.alloc (count_of_long (length front) m.size h)
        (omega (arith, a.first)) (rw behind_header copied) stored
        (bytes_left-eq m.size 12 (12 + length front) a.small a.first ∙ omega arith)
        (recv_loop_full fuel events 12 m.buf (12 + length front) (omega (arith, a.enough)))
    where
      copied : take m.size (front ++ replicate (1012 - length front) 0) ≡ m.buf
      copied =
          take-append_le m.size front _ h
          ∙ sym (take-append_le m.size front (bytes_of cs) h)
          ∙ ap (take m.size) a.stream
          ∙ (let (z, e) = padded_short m.buf (omega (arith, a.sized, a.first)) in
              rw e (take-append_length m.size m.buf z a.sized))

      stored : store_at 12 12 m.buf raw ≡ some m.buf
      stored =
          store_at-append 12 [] m.buf raw (omega (arith, a.sized, a.block))
          ∙ ap some (
              ap (◌++◌ m.buf) (drop-length (length m.buf) raw (omega (arith, a.sized, a.block)))
              ∙ append-nil m.buf)

  recvupdt_msg_short :
      length front < m.size
      → 1012 ≤ m.size
      → recvupdt_msg malloc fuel (map received cs) m.type m.size (12 + length front) recvbuf
        ≡ done (update_of m)
  recvupdt_msg_short h k =
      let events = map received cs in
      let rest = bytes_of cs in
      let whole : front ++ rest ≡ m.buf = a.stream ∙ padded_long m.buf (omega (arith, a.sized)) in
      let total : length front + length rest ≡ m.size =
        omega (arith, a.sized, ap (length {A = ℕ}) whole, length-append front rest) in
      let behind = drop (length front) raw in
      let nothing : List ℕ = [] in
      let (b, ends, filled, size) =
        recv_loop-Fills cs fuel 12 front behind rest [] (sym (append-nil rest))
          (omega
            (arith, total, a.block, length-append rest nothing, length-drop (length front) raw))
          a.enough in
      let full : b ≡ m.buf =
        sym (
          take-length (length front + length rest) b
            (omega (arith, size, total, a.block, length-drop (length front) raw)))
        ∙ filled
        ∙ whole in
      recvupdt_msg_steps malloc fuel events m.type m.size (length front) (length front)
        (length rest) recvbuf front raw (front ++ behind) b a.nonempty a.alloc
        (count_of_short (length front) m.size h) (omega (arith, a.first))
        (rw behind_header (take-append_length (length front) front _ refl))
        (store_at-append 12 [] front raw (omega (arith, a.block)))
        (bytes_left-eq m.size 12 (12 + length front) a.small a.first ∙ omega (arith, total)) ends
      ∙ rw full

recvupdt_msg_empty :
    (malloc : Malloc) (fuel : ℕ) (events : List Delivery) (m : Msg) (n : ℕ) (prv : List ℕ)
    → IsSized m
    → m.size ≡ 0
    → recvupdt_msg malloc fuel events m.type m.size n prv ≡ done (update_of m)
unfolding recvupdt_msg
recvupdt_msg_empty malloc fuel events m n prv s e = rw e (
    ap (λ b. done (record { msg = record { buf = b; size = 0; type = m.type }; stored = none }))
      (sym (length-zero m.buf (s.sized ∙ e))))
  where
    length-zero : (xs : List ℕ) → length xs ≡ 0 → xs ≡ []
    length-zero [] h = refl
    length-zero (x ∷ xs) h = absurd (omega arith)

-- How the network cuts a stream: at least the header comes first, and no more than one packet.
pub record Cuts (header : ℕ) (stream first : List ℕ) (cs : List (List ℕ)) : Type 0 where
  pub whole : first ++ bytes_of cs ≡ stream
  pub has_header : header ≤ length first
  pub fits : length first ≤ send_size

-- A block of the size that was asked for.
pub record Allocates (malloc : Malloc) (size : ℕ) (raw : List ℕ) : Type 0 where
  pub alloc : malloc size ≡ some raw
  pub block : length raw ≡ size

recvupdt_msg-padded :
    (malloc : Malloc) (fuel : ℕ) (m : Msg) (raw front : List ℕ) (cs : List (List ℕ))
    → IsSized m
    → m.size + 12 < 2 ^ 31
    → 12 + length front ≤ 1024
    → Allocates malloc m.size raw
    → front ++ bytes_of cs ≡ padded 1012 m.buf
    → (m.size ≤ length front) ⊎ (1012 ≤ m.size)
    → length cs < fuel
    → recvupdt_msg malloc fuel
        (map received cs)
        m.type
        m.size
        (12 + length front)
        (preamble m ++ (front ++ replicate (1012 - length front) 0))
      ≡ done (update_of m)
recvupdt_msg-padded malloc fuel m raw front cs s small fits al stream room enough =
    elim (ℕ_discrete m.size 0) [
      | yes e ↦ recvupdt_msg_empty malloc fuel (map received cs) m (12 + length front) _ s e
      | no ne ↦
          let a : Agreed malloc m raw front cs fuel = record {
            sized = s.sized;
            nonempty = omega arith;
            small = small;
            first = fits;
            alloc = al.alloc;
            block = al.block;
            stream = stream;
            enough = enough;
          } in
          elim (dec_lt (length front) m.size) [
            | yes h ↦ recvupdt_msg_short a h (omega arith)
            | no h ↦ recvupdt_msg_long a (omega arith)
          ]
    ]

InBounds-small : (kernel : Kernel) (size : ℕ) → InBounds kernel size → size ≤ 2024
InBounds-small kernel size (inl small) = omega arith
InBounds-small kernel size (inr (e, w)) = omega (arith, e)

-- An update message is sent, and `recv_msg` returns the message that was sent, however the network cuts
-- the stream, if the first delivery is at most a packet and has the header and, for a payload below 1012
-- bytes, the payload too. The payload has at most 1012 bytes, or 2024 of which the second `send` takes the
-- last 1012. The type is a negative `int` or 0, the first `send` takes its whole packet, `malloc` grants the block, and the fuel is more than the size
-- for the sender and more than the deliveries for the receiver.
pub recv_msg-sendupdt_msg :
    (malloc : Malloc) (fs : FileSystem) (kernel : Kernel) (path : Option (List ℕ))
    (send_fuel fuel : ℕ) (m : Msg) (raw first : List ℕ) (cs : List (List ℕ))
    → IsSized m
    → IsInt m.type
    → is_file_msg m.type ≡ false
    → InBounds kernel m.size
    → kernel 0 send_size ≡ some send_size
    → m.size < send_fuel
    → Allocates malloc m.size raw
    → Cuts 12 (preamble m ++ padded 1012 m.buf) first cs
    → (12 + m.size ≤ length first) ⊎ (1012 ≤ m.size)
    → length cs < fuel
    → (send_msg kernel path send_fuel m ≡ done (first ++ bytes_of cs))
      × (recv_msg malloc fs fuel (received first ∷ map received cs) ≡ done (update_of m))
unfolding send_msg recv_msg
recv_msg-sendupdt_msg malloc fs kernel path send_fuel fuel m raw first cs s int update bounds w sf
      al cut room enough =
    let (front, starts, behind) =
      front_split (preamble m) (padded 1012 m.buf) first (bytes_of cs) cut.whole
        (omega (arith, cut.has_header, length-preamble m)) in
    let size : length first ≡ 12 + length front =
      omega
        (arith, ap (length {A = ℕ}) starts, length-append (preamble m) front, length-preamble m) in
    let small : m.size ≤ 2024 = InBounds-small kernel m.size bounds in
    (
      rw (update, cut.whole) (sendupdt_msg-padded kernel send_fuel m s w bounds sf),
      rw starts (
          recv_first-dispatch malloc fs fuel (map received cs) m front int (omega (arith, small))
            (omega (arith, size, cut.fits))
          ∙ rw update (
              recvupdt_msg-padded malloc fuel m raw front cs s (omega (arith, small))
                (omega (arith, size, cut.fits)) al (sym behind) (omega (arith, size)) enough)),
    )
