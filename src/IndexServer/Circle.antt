-- ===== src/IndexServer/Circle.antt =====
-- A list read in a circle, for the loops of `find_replication_peers` in src/index_server.cpp.
use native.Mathlib.Nat.{mod-eq_of_lt, mod-eq-sub-mod}
use native.Mathlib.Decide.{dec_lt}
use cs550_pa.Prelude.{
  ℕ, zero, suc, ◌+◌, ◌-◌, ◌%◌, ◌≤◌, ◌<◌, ◌≡◌, refl, ap, ◌∙◌, arith, Bool, ltb, if◌then◌else◌, some,
  List, [], ◌∷◌, ◌++◌, length, length-append, length-take, length-drop, take, drop, get_elem?,
  drop-length, take-length,
}
use cs550_pa.Comms.{Conn}

-- The list from index `s` on, and then its front.
abbrev pub rotate : ℕ → List Conn → List Conn
rotate s xs = drop s xs ++ take s xs

-- The members that pass a test.
unfoldable pub keep : (Conn → Bool) → List Conn → List Conn
keep test [] = []
keep test (x ∷ xs) = if test x then x ∷ keep test xs else keep test xs

pub length-rotate : (s : ℕ) (xs : List Conn) → length (rotate s xs) ≡ length xs
length-rotate s xs =
    omega (arith, length-append (drop s xs) (take s xs), length-drop s xs, length-take s xs)

get_elem?-drop : (s k : ℕ) (xs : List Conn) → get_elem? (drop s xs) k ≡ get_elem? xs (s + k)
get_elem?-drop zero k xs = ap (get_elem? xs) (omega arith)
get_elem?-drop (suc s) k [] = refl
get_elem?-drop (suc s) k (x ∷ xs) = get_elem?-drop s k xs ∙ ap (get_elem? (x ∷ xs)) (step s k)
  where
    step : (s k : ℕ) → suc (s + k) ≡ suc s + k
    step s k = omega arith

get_elem?-take : (s k : ℕ) (xs : List Conn) → k < s → get_elem? (take s xs) k ≡ get_elem? xs k
get_elem?-take zero k xs h = absurd (omega arith)
get_elem?-take (suc s) k [] h = refl
get_elem?-take (suc s) zero (x ∷ xs) h = refl
get_elem?-take (suc s) (suc k) (x ∷ xs) h = get_elem?-take s k xs (omega arith)

get_elem?-append :
    (xs ys : List Conn) (k : ℕ)
    → get_elem? (xs ++ ys) k
      ≡ (if ltb k (length xs) then get_elem? xs k else get_elem? ys (k - length xs))
get_elem?-append [] ys k = ground arith
get_elem?-append (x ∷ xs) ys zero = ground arith
get_elem?-append (x ∷ xs) ys (suc k) = ground (arith, get_elem?-append xs ys k)

pub mod_small : (i n : ℕ) → i < n → i % n ≡ i
mod_small i n h = mod-eq_of_lt h

pub mod_wrap : (i n : ℕ) → n ≤ i → i < n + n → i % n ≡ i - n
mod_wrap i n h q = mod-eq-sub-mod h ∙ mod-eq_of_lt (omega arith)

pub get_elem?-rotate :
    (s k : ℕ) (xs : List Conn)
    → s < length xs
    → k < length xs
    → get_elem? (rotate s xs) k ≡ get_elem? xs ((s + k) % length xs)
get_elem?-rotate s k xs hs hk =
    let n = length xs in
    let back : length (drop s xs) ≡ n - s = length-drop s xs in
    let split = get_elem?-append (drop s xs) (take s xs) k in
    elim (dec_lt k (n - s)) [
      | yes h ↦
          ground (arith, split, back, get_elem?-drop s k xs, mod_small (s + k) n (omega arith))
      | no h ↦ ground (
        arith,
        split,
        back,
        get_elem?-take s (k - (n - s)) xs (omega arith),
        mod_wrap (s + k) n (omega arith) (omega arith),
      )
    ]

pub drop-get_elem? :
    (k : ℕ) (xs : List Conn)
    → k < length xs
    → (x : Conn) × (get_elem? xs k ≡ some x) × (drop k xs ≡ x ∷ drop (suc k) xs)
drop-get_elem? k [] h = absurd (omega arith)
drop-get_elem? zero (x ∷ xs) h = (x, refl, refl)
drop-get_elem? (suc k) (x ∷ xs) h = drop-get_elem? k xs (omega arith)

pub rotate-nil : (s : ℕ) → rotate s [] ≡ []
rotate-nil s =
    let nothing : List Conn = [] in
    rw (drop-length s nothing (omega arith)) (take-length s [] (omega arith))
