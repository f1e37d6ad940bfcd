-- ===== src/Comms/Transmit.antt =====
-- What the senders of src/comms.c put on the wire.
use cs550_pa.Prelude.{
  ℕ, zero, suc, ◌+◌, ◌-◌, ◌≤◌, ◌<◌, ◌≡◌, sym, ap, ◌∙◌, arith, some, List, ◌++◌, length, take, drop,
  replicate, [], refl, ◌⊎◌, take-take, drop-drop, take-take_append, take-append-drop, drop-length,
  length-drop, suc-eq-zero, append-nil, append_assoc, tests, Bool-cases, inl, inr, int_bits,
  take-length, length-append, length-take, length-replicate, ltb, if◌then◌else◌, ge→ltb, lt→ltb,
}
use cs550_pa.Word.{le_bytes, int_bytes, length-le_bytes}
use cs550_pa.Comms.Name.{array, getname}
use cs550_pa.Comms.Basename.{length-array, length-getname}
use cs550_pa.Comms.{Msg, IsSized, done, fault}
use cs550_pa.Comms.Send.{
  preamble, first_sent, sendupdt_msg, sendfile_msg, name_size, Kernel, send_size, fill, next_size,
  sendupdt_loop, sendfile_loop,
}

-- Every `send` of at least one byte accepts at least one, and no more than it was given.
abbrev pub Progresses : Kernel → Type 0
Progresses kernel = (i n : ℕ) → 0 < n → (k : ℕ) × (kernel i n ≡ some k) × (0 < k) × (k ≤ n)

pub packet_prefix :
    (k room left : ℕ) (src : List ℕ)
    → k ≤ next_size left
    → next_size left ≤ room
    → length src ≡ left
    → take k (take (next_size left) (fill room src)) ≡ take k src
unfolding fill
packet_prefix k room left src h r l =
    take-take k (next_size left) _ h
    ∙ take-take_append k room src _ (omega (arith, h, r)) (ground arith)

-- The part that was sent and what is behind it make up what was to be sent.
pub sent-rest :
    (k pos : ℕ) (buf : List ℕ) → take k (drop pos buf) ++ drop (pos + k) buf ≡ drop pos buf
sent-rest k pos buf = rw (← drop-drop pos k buf) (take-append-drop k (drop pos buf))

pub sendfile_loop-drop :
    (kernel : Kernel) (fuel call : ℕ) (buf : List ℕ) (pos left : ℕ)
    → Progresses kernel
    → length buf - pos ≡ left
    → left < fuel
    → sendfile_loop kernel fuel call buf pos left ≡ done (drop pos buf)
unfolding sendfile_loop
sendfile_loop-drop kernel zero call buf pos left p e h = absurd (omega arith)
sendfile_loop-drop kernel (suc fuel) call buf pos zero p e h =
    ap done (sym (drop-length pos buf (omega arith)))
sendfile_loop-drop kernel (suc fuel) call buf pos (suc left) p e h =
    let (k, accepts, more, fits) = p call (next_size (suc left)) (ground arith) in
    rw (suc-eq-zero left, accepts)
      (rw
        (sendfile_loop-drop kernel fuel (call + 1) buf (pos + k) (suc left - k) p (ground arith)
          (omega arith))
        (rw
          (packet_prefix k (next_size (suc left)) (suc left) (drop pos buf) fits (omega arith)
            (omega (arith, length-drop pos buf)))
          (ap done (sent-rest k pos buf))))

pub sendupdt_loop_end :
    (kernel : Kernel) (fuel call room : ℕ) (buf : List ℕ) (pos left : ℕ)
    → left ≡ 0
    → 0 < fuel
    → sendupdt_loop kernel fuel call room buf pos left ≡ done []
unfolding sendupdt_loop
sendupdt_loop_end kernel zero call room buf pos left e h = absurd (omega arith)
sendupdt_loop_end kernel (suc fuel) call room buf pos left e h = rw e refl

-- One turn of the loop, in which all that was copied is sent, with more to follow.
pub sendupdt_loop_turn :
    (kernel : Kernel) (fuel call room : ℕ) (buf rest : List ℕ) (pos left : ℕ)
    → 0 < left
    → room ≤ next_size left
    → length buf - pos ≡ left
    → kernel call (next_size left) ≡ some (next_size left)
    → sendupdt_loop kernel fuel
        (call + 1)
        send_size
        buf
        (pos + next_size left)
        (left - next_size left)
      ≡ done rest
    → sendupdt_loop kernel (suc fuel) call room buf pos left
      ≡ done (take (next_size left) (take (next_size left) (fill room (drop pos buf))) ++ rest)
unfolding sendupdt_loop
sendupdt_loop_turn kernel fuel call room buf rest pos zero h r e w later = absurd (omega arith)
sendupdt_loop_turn kernel fuel call room buf rest pos (suc left) h r e w later =
    let fits : next_size (suc left) ≤ suc left = ground arith in
    let inside : room ≤ length (drop pos buf) = omega (arith, length-drop pos buf, e, r, fits) in
    rw (suc-eq-zero left, ge→ltb (length (drop pos buf)) room inside, w, later)

pub sendupdt_loop_faulty :
    (kernel : Kernel) (fuel call room : ℕ) (buf : List ℕ) (pos left : ℕ)
    → 0 < left
    → kernel call (next_size left) ≡ some (next_size left)
    → sendupdt_loop kernel fuel
        (call + 1)
        send_size
        buf
        (pos + next_size left)
        (left - next_size left)
      ≡ fault
    → sendupdt_loop kernel (suc fuel) call room buf pos left ≡ fault
unfolding sendupdt_loop
sendupdt_loop_faulty kernel fuel call room buf pos zero h w later = absurd (omega arith)
sendupdt_loop_faulty kernel fuel call room buf pos (suc left) h w later =
    elim (Bool-cases (ltb (length (drop pos buf)) room)) [
      | inl over ↦ rw (suc-eq-zero left, over) refl
      | inr inside ↦ rw (suc-eq-zero left, inside, w, later) refl
    ]

-- The whole of the buffer that is left is copied and sent.
pub sendupdt_loop_last :
    (kernel : Kernel) (fuel call room : ℕ) (buf : List ℕ) (pos : ℕ)
    → 0 < room
    → room ≤ 1024
    → length buf - pos ≡ room
    → kernel call room ≡ some room
    → 1 < fuel
    → sendupdt_loop kernel fuel call room buf pos room ≡ done (drop pos buf)
sendupdt_loop_last kernel zero call room buf pos h k e w f = absurd (omega arith)
sendupdt_loop_last kernel (suc fuel) call room buf pos h k e w f =
    let n : next_size room ≡ room = ground arith in
    sendupdt_loop_turn kernel fuel call room buf [] pos room h (omega (arith, n)) e (rw n w) (
      sendupdt_loop_end kernel fuel (call + 1) send_size buf (pos + next_size room)
        (room - next_size room) (omega (arith, n)) (omega arith))
    ∙ ap done (
        append-nil (take (next_size room) (take (next_size room) (fill room (drop pos buf))))
        ∙ packet_prefix (next_size room) room room (drop pos buf) (omega arith) (omega (arith, n))
            (omega (arith, length-drop pos buf, e))
        ∙ take-length (next_size room) (drop pos buf) (omega (arith, n, length-drop pos buf, e)))

-- Fewer bytes are left than are copied.
pub sendupdt_loop_over :
    (kernel : Kernel) (fuel call room : ℕ) (buf : List ℕ) (pos left : ℕ)
    → 0 < left
    → length buf - pos < room
    → 0 < fuel
    → sendupdt_loop kernel fuel call room buf pos left ≡ fault
unfolding sendupdt_loop
sendupdt_loop_over kernel (suc fuel) call room buf pos (suc left) h e f =
    rw (suc-eq-zero left, lt→ltb (length (drop pos buf)) room (omega (arith, length-drop pos buf)))
sendupdt_loop_over kernel zero call room buf pos left h e f = absurd (omega arith)
sendupdt_loop_over kernel (suc fuel) call room buf pos zero h e f = absurd (omega arith)

-- A payload on the wire: its first `room` bytes, padded with zeros to `room`, and then the rest.
unfoldable pub padded : ℕ → List ℕ → List ℕ
padded room buf = take room buf ++ (replicate (room - length (take room buf)) 0 ++ drop room buf)

pub length-preamble : (m : Msg) → length (preamble m) ≡ 12
unfolding preamble
length-preamble m = omega (
  arith,
  length-append (int_bytes m.type) (le_bytes 8 m.size),
  length-le_bytes 4 (int_bits m.type),
  length-le_bytes 8 m.size,
)

pub length-pad :
    (room : ℕ) (buf : List ℕ)
    → length (take room buf ++ replicate (room - length (take room buf)) 0) ≡ room
length-pad room buf = omega (
  arith,
  length-append (take room buf) (replicate (room - length (take room buf)) 0),
  length-take room buf,
  length-replicate (room - length (take room buf)) zero,
)

-- What `sendupdt_msg` copies into the first packet is the front of the buffer in both cases.
pub copied_front :
    (m : Msg) (room : ℕ)
    → IsSized m
    → (if ltb m.size room then take m.size m.buf else take room m.buf) ≡ take room m.buf
copied_front m room s = elim (Bool-cases (ltb m.size room)) [
  | inl small ↦ rw small (
      take-length m.size m.buf (omega (arith, s.sized))
      ∙ sym (take-length room m.buf (omega (tests, small, s.sized))))
  | inr large ↦ rw large
]

pub first_whole :
    (kernel : Kernel) (packet : List ℕ)
    → kernel 0 send_size ≡ some send_size
    → length packet ≡ send_size
    → first_sent kernel packet ≡ packet
first_whole kernel packet w l = rw (w, first_sent) (take-length send_size packet (omega (arith, l)))

pub packet_full :
    (m : Msg) (room : ℕ) (header : List ℕ)
    → length header + room ≡ send_size
    → length (header ++ (take room m.buf ++ replicate (room - length (take room m.buf)) 0))
      ≡ send_size
packet_full m room header h = omega (
  arith,
  h,
  length-pad room m.buf,
  length-append header (take room m.buf ++ replicate (room - length (take room m.buf)) zero),
)

-- The payloads behind which the sender reads nothing: those that fit the first packet, and those of which
-- the rest is just the 1012 bytes that are copied next and that `send` takes.
abbrev pub InBounds : Kernel → ℕ → Type 0
InBounds kernel size = (size ≤ 1012) ⊎ (size ≡ 2024) × (kernel 1 1012 ≡ some 1012)

rest_sent :
    (kernel : Kernel) (fuel : ℕ) (m : Msg)
    → IsSized m
    → InBounds kernel m.size
    → m.size < fuel
    → sendupdt_loop kernel fuel 1 1012 m.buf 1012 (m.size - 1012) ≡ done (drop 1012 m.buf)
rest_sent kernel fuel m s (inl small) enough =
    sendupdt_loop_end kernel fuel 1 1012 m.buf 1012 (m.size - 1012) (omega arith) (omega arith)
    ∙ ap done (sym (drop-length 1012 m.buf (omega (arith, s.sized))))
rest_sent kernel fuel m s (inr (size, w)) enough =
    let left : m.size - 1012 ≡ 1012 = omega (arith, size) in
    rw left (
      sendupdt_loop_last kernel fuel 1 1012 m.buf 1012 (omega arith) (omega arith)
        (omega (arith, size, s.sized)) w (omega (arith, size)))

-- `sendupdt_msg` returns, and has put the header and the payload on the wire, the latter padded with
-- zeros to 1012 bytes: if the payload has at most 1012 bytes, or 2024 of which the second `send` takes
-- the last 1012, the first `send` takes its whole packet, and the fuel is more than the size.
pub sendupdt_msg-padded :
    (kernel : Kernel) (fuel : ℕ) (m : Msg)
    → IsSized m
    → kernel 0 send_size ≡ some send_size
    → InBounds kernel m.size
    → m.size < fuel
    → sendupdt_msg kernel fuel m ≡ done (preamble m ++ padded 1012 m.buf)
unfolding sendupdt_msg padded
sendupdt_msg-padded kernel fuel m s w bounds enough =
    rw
      (
        copied_front m 1012 s,
        rest_sent kernel fuel m s bounds enough,
        first_whole kernel
            (preamble m ++ (take 1012 m.buf ++ replicate (1012 - length (take 1012 m.buf)) 0)) w
            (packet_full m 1012 (preamble m) (omega (arith, length-preamble m))),
      )
      (ap done (simp append_assoc))

-- For a file of any size, `sendfile_msg` returns, and has put the header, the name and the file on the
-- wire, the latter padded with zeros to 768 bytes: if the first `send` takes its whole packet, the others
-- take at least a byte each, and the fuel is more than the size.
pub sendfile_msg-padded :
    (kernel : Kernel) (path : List ℕ) (fuel : ℕ) (m : Msg)
    → IsSized m
    → Progresses kernel
    → kernel 0 send_size ≡ some send_size
    → m.size < fuel
    → sendfile_msg kernel (some path) fuel m
      ≡ done (preamble m ++ (getname (array name_size path) name_size ++ padded 768 m.buf))
unfolding sendfile_msg padded
sendfile_msg-padded kernel path fuel m s p w enough =
    let named : length (getname (array name_size path) name_size) ≡ name_size =
      length-getname (array name_size path) name_size ∙ length-array name_size path in
    let first = take 768 m.buf ++ replicate (768 - length (take 768 m.buf)) zero in
    rw
      (
        sendfile_loop-drop kernel fuel 1 m.buf 768 (m.size - 768) p (omega (arith, s.sized))
            (omega arith),
        first_whole kernel
            (preamble m
              ++ (getname (array name_size path) name_size
                  ++ (take 768 m.buf ++ replicate (768 - length (take 768 m.buf)) 0)))
            w
            (omega (
              arith,
              named,
              length-preamble m,
              length-pad 768 m.buf,
              length-append (preamble m) (getname (array name_size path) name_size ++ first),
              length-append (getname (array name_size path) name_size) first,
            )),
      )
      (ap done (simp append_assoc))

pub pad-full :
    (room : ℕ) (buf : List ℕ)
    → room ≤ length buf
    → take room buf ++ replicate (room - length (take room buf)) 0 ≡ take room buf
pad-full room buf h =
    rw (no_room room (length (take room buf)) (omega (arith, length-take room buf)))
      (append-nil (take room buf))
  where
    no_room : (m n : ℕ) → n ≡ m → m - n ≡ 0
    no_room m n e = omega arith
