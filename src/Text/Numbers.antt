-- ===== src/Text/Numbers.antt =====
-- A number that `%d` prints is read back by `stoi` (src/decentralized_peer.cpp, src/peer_cli.cpp).
use cs550_pa.Prelude.{
  ℕ, zero, suc, ◌+◌, ◌-◌, ◌*◌, ◌/◌, ◌%◌, ◌^◌, ◌<◌, ◌≡◌, refl, ap, ◌∙◌, arith, true, false, ◌==◌,
  ltb, some, List, [], ◌∷◌, pos, Bool-cases, inl, inr, tests,
}
use cs550_pa.Text.{
  is_digit, is_space, digits, skip_spaces, unsigned, signed, stoi, decimal_on, decimal, minus, plus,
}

-- What is behind a number: nothing, or a byte that is no digit.
pub data NoDigit : List ℕ → Type 0 where
  at_end : NoDigit []
  at_byte : (c : ℕ) (cs : List ℕ) → is_digit c ≡ false → NoDigit (c ∷ cs)

pub digits-stop : (n : ℕ) {rest : List ℕ} → NoDigit rest → digits n rest ≡ n
unfolding digits
digits-stop n at_end = refl
digits-stop n (at_byte c cs e) = rw e refl

digits-step :
    (acc d : ℕ) (rest : List ℕ) → d < 10 → digits acc ((48 + d) ∷ rest) ≡ digits (acc * 10 + d) rest
unfolding digits
digits-step acc d rest h =
    let digit : is_digit (48 + d) ≡ true = ground arith in
    let value : acc * 10 + (48 + d - 48) ≡ acc * 10 + d = omega arith in rw (digit, value) refl

pub digits-decimal_on :
    (k n : ℕ) (rest : List ℕ)
    → n < 10 ^ suc k
    → digits 0 (decimal_on (suc k) n rest) ≡ digits n rest
unfolding decimal_on
digits-decimal_on zero n rest h =
    let small : ltb n 10 ≡ true = ground arith in
    rw small (digits-step 0 n rest (omega arith) ∙ ap (λ v. digits v rest) (omega arith))
digits-decimal_on (suc k) n rest h = elim (Bool-cases (ltb n 10)) [
  | inl small ↦
      rw small (digits-step 0 n rest (omega (tests, small)) ∙ ap (λ v. digits v rest) (omega arith))
  | inr large ↦ rw large (
      digits-decimal_on k (n / 10) ((48 + n % 10) ∷ rest) (omega arith)
      ∙ digits-step (n / 10) (n % 10) rest (omega arith)
      ∙ ap (λ v. digits v rest) (omega arith))
]

-- A decimal number starts with a digit.
pub decimal_on-starts :
    (k n : ℕ) (rest : List ℕ)
    → (d : ℕ) × (ds : List ℕ) × (decimal_on (suc k) n rest ≡ d ∷ ds) × (is_digit d ≡ true)
unfolding decimal_on
decimal_on-starts zero n rest = elim (Bool-cases (ltb n 10)) [
  | inl small ↦ rw small (48 + n, rest, refl, ground arith)
  | inr large ↦ rw large (48 + n % 10, rest, refl, ground arith)
]
decimal_on-starts (suc k) n rest = elim (Bool-cases (ltb n 10)) [
  | inl small ↦ rw small (48 + n, rest, refl, ground arith)
  | inr large ↦ rw large (decimal_on-starts k (n / 10) ((48 + n % 10) ∷ rest))
]

stoi-digits :
    (n d : ℕ) (ds : List ℕ)
    → is_digit d ≡ true
    → digits 0 (d ∷ ds) ≡ n
    → n < 2 ^ 31
    → stoi (d ∷ ds) ≡ some (pos n)
unfolding stoi skip_spaces signed unsigned
stoi-digits n d ds digit value h =
    let spaceless : is_space d ≡ false = ground (arith, digit) in
    let no_minus : (d == minus) ≡ false = ground (arith, digit) in
    let no_plus : (d == plus) ≡ false = ground (arith, digit) in
    let in_range : ltb n (2 ^ 31) ≡ true = ground (arith, h) in
    rw (spaceless, no_minus, no_plus, digit, value, in_range) refl

-- `stoi` reads the number that stands in front of `rest`.
pub stoi-decimal :
    (n : ℕ) (rest : List ℕ) → n < 2 ^ 31 → NoDigit rest → stoi (decimal n rest) ≡ some (pos n)
stoi-decimal n rest h stop =
    let (d, ds, e, digit) = decimal_on-starts 9 n rest in
    let value = digits-decimal_on 9 n rest (omega arith) ∙ digits-stop n stop in
    rw e (stoi-digits n d ds digit (rw e at value) h)
