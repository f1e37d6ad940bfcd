-- ===== src/Flood/Sums.antt =====
-- Sums over the peers below a bound, for the measure of src/decentralized_peer.cpp's queries.
use native.Mathlib.Decide.{ℕ_discrete}
use cs550_pa.Prelude.{ℕ, zero, suc, ◌+◌, ◌*◌, ◌<◌, ◌≤◌, ◌≡◌, ◌≢◌, refl, ap, arith}

unfoldable pub sum : ℕ → (ℕ → ℕ) → ℕ
sum zero f = 0
sum (suc n) f = f n + sum n f

pub sum-eq : (n : ℕ) (f g : ℕ → ℕ) → ((x : ℕ) → f x ≡ g x) → sum n f ≡ sum n g
unfolding sum
sum-eq zero f g h = refl
sum-eq (suc n) f g h = omega (arith, h n, sum-eq n f g h)

pub sum-le : (n b : ℕ) (f : ℕ → ℕ) → ((x : ℕ) → f x ≤ b) → sum n f ≤ n * b
unfolding sum
sum-le zero b f h = omega arith
sum-le (suc n) b f h = grind (arith, h n, sum-le n b f h)

pub sum-zero : (n : ℕ) (f : ℕ → ℕ) → ((x : ℕ) → f x ≡ 0) → sum n f ≡ 0
unfolding sum
sum-zero zero f h = refl
sum-zero (suc n) f h = omega (arith, h n, sum-zero n f h)

-- Where two functions differ at one place.
sum_outside : (n k : ℕ) (f g : ℕ → ℕ) → n ≤ k → ((x : ℕ) → x ≢ k → g x ≡ f x) → sum n g ≡ sum n f
unfolding sum
sum_outside zero k f g h e = refl
sum_outside (suc n) k f g h e =
    omega (arith, e n (λ q. omega arith), sum_outside n k f g (omega arith) e)

pub sum_change :
    (n k : ℕ) (f g : ℕ → ℕ) → k < n → ((x : ℕ) → x ≢ k → g x ≡ f x) → sum n g + f k ≡ sum n f + g k
unfolding sum
sum_change zero k f g h e = absurd (omega arith)
sum_change (suc n) k f g h e = elim (ℕ_discrete n k) [
  | yes q ↦ omega (arith, ap f q, ap g q, sum_outside n k f g (omega arith) e)
  | no ne ↦ omega (arith, e n ne, sum_change n k f g (omega arith) e)
]

-- The sum over all pairs.
abbrev pub sum_pairs : ℕ → (ℕ → ℕ → ℕ) → ℕ
sum_pairs n f = sum n (λ x. sum n (f x))

pub sum_pairs_change :
    (n k l : ℕ) (f g : ℕ → ℕ → ℕ)
    → k < n
    → l < n
    → ((x y : ℕ) → x ≢ k → g x y ≡ f x y)
    → ((y : ℕ) → y ≢ l → g k y ≡ f k y)
    → sum_pairs n g + f k l ≡ sum_pairs n f + g k l
sum_pairs_change n k l f g h q rows cell = omega (
  arith,
  sum_change n k (λ x. sum n (f x)) (λ x. sum n (g x)) h
      (λ x ne. sum-eq n (g x) (f x) (λ y. rows x y ne)),
  sum_change n l (f k) (g k) q cell,
)

pub sum_pairs_row :
    (n k : ℕ) (f g : ℕ → ℕ → ℕ)
    → k < n
    → ((x y : ℕ) → x ≢ k → g x y ≡ f x y)
    → sum_pairs n g + sum n (f k) ≡ sum_pairs n f + sum n (g k)
sum_pairs_row n k f g h rows =
    sum_change n k (λ x. sum n (f x)) (λ x. sum n (g x)) h
      (λ x ne. sum-eq n (g x) (f x) (λ y. rows x y ne))
