-- ===== src/Comms/Header.antt =====
-- What the receivers of src/comms.c read of the first delivery.
use cs550_pa.Prelude.{
  ℕ, ◌+◌, ◌-◌, ◌^◌, ◌≤◌, ◌<◌, ◌≡◌, sym, ap, ◌∙◌, arith, List, [], ◌∷◌, ◌++◌, length, take, drop,
  length-append, take-append_length, drop-append_length, append_split, append-nil, append_assoc,
  inl, inr, IsInt, int_bits, bits_int, bits_int-int_bits, int_bits-lt,
}
use cs550_pa.Word.{le_bytes, of_le_bytes, int_bytes, length-le_bytes, of_le_bytes-le_bytes}
use cs550_pa.Comms.{Msg}
use cs550_pa.Comms.Send.{preamble}
use cs550_pa.Comms.Recv.{bytes_left}

-- As long as the total fits an `int`, the number of bytes that are missing.
pub bytes_left-eq :
    (size header r : ℕ)
    → size + header < 2 ^ 31
    → r ≤ 1024
    → bytes_left size header r ≡ size + header - r
unfolding bytes_left bits_int
bytes_left-eq size header r h k = ground arith

-- A delivery that is at least as long as the front of the stream begins with it.
pub front_split :
    (p s c d : List ℕ)
    → c ++ d ≡ p ++ s
    → length p ≤ length c
    → (c' : List ℕ) × (c ≡ p ++ c') × (s ≡ c' ++ d)
front_split p s c d e h = elim (append_split c d p s e) [
  | inr (c', whole, rest) ↦ (c', whole, rest)
  | inl ([], whole, rest) ↦ ([], sym (append-nil c) ∙ sym whole ∙ sym (append-nil p), sym rest)
  | inl (x ∷ r, whole, rest) ↦
      absurd (omega (arith, ap (length {A = ℕ}) whole, length-append c (x ∷ r)))
]

module _ (m : Msg) (int : IsInt m.type) (more : List ℕ) where
  pub read_type : bits_int (of_le_bytes (take 4 (preamble m ++ more))) ≡ m.type
  unfolding preamble
  read_type = rw (append_assoc (int_bytes m.type) (le_bytes 8 m.size) more) (
      rw (take-append_length 4 (int_bytes m.type) (le_bytes 8 m.size ++ more) (length-le_bytes 4 _))
        (rw (of_le_bytes-le_bytes 4 (int_bits m.type) (omega (arith, int_bits-lt m.type)))
          (bits_int-int_bits m.type int)))

  pub read_size : m.size < 2 ^ 64 → of_le_bytes (take 8 (drop 4 (preamble m ++ more))) ≡ m.size
  unfolding preamble
  read_size h = rw (append_assoc (int_bytes m.type) (le_bytes 8 m.size) more) (
      rw (drop-append_length 4 (int_bytes m.type) (le_bytes 8 m.size ++ more) (length-le_bytes 4 _))
        (rw (take-append_length 8 (le_bytes 8 m.size) more (length-le_bytes 8 _))
          (of_le_bytes-le_bytes 8 m.size (omega arith))))
