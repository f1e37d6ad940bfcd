-- ===== src/Benchmarks/Names.antt =====
-- The names that src/benchmarks.cpp makes for its files.
use cs550_pa.Prelude.{
  ℕ, zero, suc, ◌+◌, ◌-◌, ◌/◌, ◌%◌, ◌^◌, ◌<◌, ◌≤◌, ◌≡◌, refl, sym, ap, ◌∙◌, arith, false, ltb,
  Bool-cases, inl, inr, List, [], ◌∷◌, ◌++◌, length, length-append, length-replicate, replicate,
}
use cs550_pa.Text.{digits, is_digit, decimal, decimal_on}
use cs550_pa.Text.Numbers.{at_byte, digits-stop, digits-decimal_on}
use cs550_pa.Text.Lines.{decimal_on-append}
use cs550_pa.Benchmarks.{padded, extension, create_file_name}

-- Leading zeros do not change a value.
digits-zeros : (k : ℕ) (rest : List ℕ) → digits 0 (replicate k b'0' ++ rest) ≡ digits 0 rest
unfolding digits
digits-zeros zero rest = refl
digits-zeros (suc k) rest = digits-zeros k rest

digits-padded : (n : ℕ) → n < 10 ^ 10 → digits 0 (padded n extension) ≡ n
digits-padded n h =
    digits-zeros (6 - length (decimal n [])) (decimal n extension)
    ∙ digits-decimal_on 9 n extension h
    ∙ digits-stop n (at_byte b'.' _ refl)

append_cancel : (xs ys zs : List ℕ) → xs ++ ys ≡ xs ++ zs → ys ≡ zs
append_cancel [] ys zs e = e
append_cancel (x ∷ xs) ys zs e = append_cancel xs ys zs (cc e)

-- What follows a decimal number, and the number.
decimal_cancel :
    (n m c : ℕ) (r q : List ℕ)
    → n < 10 ^ 10
    → m < 10 ^ 10
    → is_digit c ≡ false
    → decimal n (c ∷ r) ≡ decimal m (c ∷ q)
    → (n ≡ m) × (r ≡ q)
decimal_cancel n m c r q h k e f =
    let same : n ≡ m =
      sym (digits-decimal_on 9 n (c ∷ r) h ∙ digits-stop n (at_byte c r e))
      ∙ ap (digits 0) f
      ∙ digits-decimal_on 9 m (c ∷ q) k
      ∙ digits-stop m (at_byte c q e) in
    let ahead : decimal n [] ++ c ∷ r ≡ decimal n [] ++ c ∷ q =
      sym (decimal_on-append 10 n [] (c ∷ r))
      ∙ f
      ∙ ap (λ i. decimal i (c ∷ q)) (sym same)
      ∙ decimal_on-append 10 n [] (c ∷ q) in
    (same, append_cancel (c ∷ []) r q (append_cancel (decimal n []) (c ∷ r) (c ∷ q) ahead))

-- How long a decimal number is at most.
length-decimal_on : (k n : ℕ) (rest : List ℕ) → length (decimal_on k n rest) ≤ k + length rest
unfolding decimal_on
length-decimal_on zero n rest = omega arith
length-decimal_on (suc k) n rest = elim (Bool-cases (ltb n 10)) [
  | inl small ↦ rw small (omega arith)
  | inr large ↦ rw large (omega (arith, length-decimal_on k (n / 10) ((48 + n % 10) ∷ rest)))
]

length-padded : (n : ℕ) → length (padded n extension) ≤ 21
length-padded n = omega (
  arith,
  length-append (replicate (6 - length (decimal n [])) b'0') (decimal n extension),
  length-replicate {A = ℕ} (6 - length (decimal n [])) b'0',
  length-decimal_on 10 n extension,
)

-- A name with its terminating zero fits into the array of 256 bytes.
pub create_file_name-fits :
    (vm n : ℕ) (file_size : List ℕ)
    → length file_size ≤ 200
    → length (create_file_name vm n file_size) < 256
unfolding create_file_name
create_file_name-fits vm n file_size l = omega (
  arith,
  length-decimal_on 10 vm (b'_' ∷ (file_size ++ b'_' ∷ padded n extension)),
  length-append file_size (b'_' ∷ padded n extension),
  length-padded n,
)

-- `create_file_name` gives different names to different files: files of one size that get the same name
-- have the same peer and the same number, if these are below 10^10. The name, of a size with at most
-- 200 bytes, fits into the array of 256 bytes with its terminating zero.
pub create_file_name-injective :
    (vm vm' n n' : ℕ) (file_size : List ℕ)
    → vm < 10 ^ 10
    → vm' < 10 ^ 10
    → n < 10 ^ 10
    → n' < 10 ^ 10
    → length file_size ≤ 200
    → create_file_name vm n file_size ≡ create_file_name vm' n' file_size
    → (vm ≡ vm') × (n ≡ n') × (length (create_file_name vm n file_size) < 256)
unfolding create_file_name
create_file_name-injective vm vm' n n' file_size h h' k k' l e =
    let (same_vm, rest) =
      decimal_cancel vm vm' b'_' _ _ h h' refl (append_cancel (b'v' ∷ b'm' ∷ []) _ _ e) in
    let numbers = append_cancel (b'_' ∷ []) _ _ (append_cancel file_size _ _ rest) in
    (
      same_vm,
      sym (digits-padded n k) ∙ ap (digits 0) numbers ∙ digits-padded n' k',
      create_file_name-fits vm n file_size l,
    )
