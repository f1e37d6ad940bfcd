-- ===== src/Word.antt =====
-- Little-endian words in byte buffers, as `memcpy` of an `int` or a `size_t` writes them and a
-- cast of a `char*` reads them (src/comms.c, src/messages.cpp).
use mathlib.Core.Option
use cs550_pa.Prelude.{
  ℕ, zero, suc, ◌+◌, ◌*◌, ◌/◌, ◌%◌, ◌^◌, ◌≤◌, ◌<◌, ◌≡◌, refl, ap, List, [], ◌∷◌, ◌++◌, arith,
  Option, none, some, leb, if◌then◌else◌, length, length-append, take-append_length,
  drop-append_length, take, drop, ℤ, IsInt, int_bits, bits_int, int_bits-lt, bits_int-int_bits,
}

-- The `k` low bytes of a number, lowest first.
unfoldable pub le_bytes : ℕ → ℕ → List ℕ
le_bytes zero n = []
le_bytes (suc k) n = (n % 256) ∷ le_bytes k (n / 256)

unfoldable pub of_le_bytes : List ℕ → ℕ
of_le_bytes [] = 0
of_le_bytes (b ∷ bs) = b + 256 * of_le_bytes bs

pub length-le_bytes : (k n : ℕ) → length (le_bytes k n) ≡ k
unfolding le_bytes
length-le_bytes zero n = refl
length-le_bytes (suc k) n = ap suc (length-le_bytes k (n / 256))

pub of_le_bytes-le_bytes : (k n : ℕ) → n < 256 ^ k → of_le_bytes (le_bytes k n) ≡ n
unfolding le_bytes of_le_bytes
of_le_bytes-le_bytes zero n h = omega arith
of_le_bytes-le_bytes (suc k) n h = omega (arith, of_le_bytes-le_bytes k (n / 256) (omega arith))

-- What a cast of `buf + off` reads; `none` is a read past the end of the buffer.
unfoldable pub read_word : ℕ → ℕ → List ℕ → Option ℕ
read_word k off buf =
    if leb (off + k) (length buf) then some (of_le_bytes (take k (drop off buf))) else none

unfoldable pub read_int : ℕ → List ℕ → Option ℤ
read_int off buf = Option.map bits_int (read_word 4 off buf)

-- The bytes of an `int`.
abbrev pub int_bytes : ℤ → List ℕ
int_bytes i = le_bytes 4 (int_bits i)

-- A word that lies behind `off` bytes is read back.
pub read_word-append :
    (k off n : ℕ) (front rest : List ℕ)
    → length front ≡ off
    → n < 256 ^ k
    → read_word k off (front ++ (le_bytes k n ++ rest)) ≡ some n
unfolding read_word
read_word-append k off n front rest hf hn =
    rw (drop-append_length off front (le_bytes k n ++ rest) hf) (
      rw (take-append_length k (le_bytes k n) rest (length-le_bytes k n)) (
        rw (of_le_bytes-le_bytes k n hn) (
          ground (
            arith,
            length-append front (le_bytes k n ++ rest),
            length-append (le_bytes k n) rest,
            length-le_bytes k n,
          ))))

pub read_int-append :
    (off : ℕ) (i : ℤ) (front rest : List ℕ)
    → length front ≡ off
    → IsInt i
    → read_int off (front ++ (int_bytes i ++ rest)) ≡ some i
unfolding read_int
read_int-append off i front rest hf hi = rw (
  read_word-append 4 off (int_bits i) front rest hf (omega (arith, int_bits-lt i)),
  bits_int-int_bits i hi,
)

-- A read is defined exactly when the buffer reaches that far.
pub read_int-short : (off : ℕ) (buf : List ℕ) → length buf < off + 4 → read_int off buf ≡ none
unfolding read_int read_word
read_int-short off buf h = ground arith

pub read_int-long :
    (off : ℕ) (buf : List ℕ) → off + 4 ≤ length buf → (i : ℤ) × (read_int off buf ≡ some i)
unfolding read_int read_word
read_int-long off buf h = (bits_int (of_le_bytes (take 4 (drop off buf))), ground arith)
