-- ===== src/Text/Lines.antt =====
-- How a text that is put together of lines and pieces is taken apart again (src/decentralized_peer.cpp,
-- src/peer_cli.cpp).
use cs550_pa.Prelude.{
  ℕ, zero, suc, ◌+◌, ◌/◌, ◌%◌, ◌≡◌, refl, ap, ◌∙◌, arith, true, false, ◌==◌, ltb, some, List, [],
  ◌∷◌, ◌++◌, map, Bool-cases, inl, inr,
}
use cs550_pa.Text.{newline, split, before, behind, after, is_digit, decimal_on, decimal}
use cs550_pa.Text.Numbers.{decimal_on-starts}

-- A text in which a byte does not occur.
pub data Lacks (c : ℕ) : List ℕ → Type 0 where
  none_left : Lacks c []
  not_here : (x : ℕ) (xs : List ℕ) → (x == c) ≡ false → Lacks c xs → Lacks c (x ∷ xs)

pub split-piece :
    {c : ℕ} {s : List ℕ} (rest : List ℕ) → Lacks c s → split c (s ++ c ∷ rest) ≡ s ∷ split c rest
unfolding split
split-piece {c} rest none_left = let same : (c == c) ≡ true = ground arith in rw same refl
split-piece {c} rest (not_here x xs e h) = rw (e, split-piece rest h) refl

pub split-last : {c : ℕ} (x : ℕ) (xs : List ℕ) → Lacks c (x ∷ xs) → split c (x ∷ xs) ≡ (x ∷ xs) ∷ []
unfolding split
split-last x [] (not_here _ _ e h) = rw e refl
split-last x (y ∷ ys) (not_here _ _ e h) = rw (e, split-last y ys h) refl

pub before-piece : {c : ℕ} {s : List ℕ} (rest : List ℕ) → Lacks c s → before c (s ++ c ∷ rest) ≡ s
unfolding before
before-piece {c} rest none_left = let same : (c == c) ≡ true = ground arith in rw same refl
before-piece {c} rest (not_here x xs e h) = rw (e, before-piece rest h) refl

pub before-Lacks : {c : ℕ} {s : List ℕ} → Lacks c s → before c s ≡ s
unfolding before
before-Lacks none_left = refl
before-Lacks (not_here x xs e h) = rw (e, before-Lacks h) refl

pub before-append :
    {c : ℕ} {s : List ℕ} (rest : List ℕ) → Lacks c s → before c (s ++ rest) ≡ s ++ before c rest
unfolding before
before-append rest none_left = refl
before-append rest (not_here x xs e h) = rw (e, before-append rest h) refl

pub behind-piece :
    {c : ℕ} {s : List ℕ} (rest : List ℕ) → Lacks c s → behind c (s ++ c ∷ rest) ≡ some rest
unfolding behind
behind-piece {c} rest none_left = let same : (c == c) ≡ true = ground arith in rw same refl
behind-piece {c} rest (not_here x xs e h) = rw (e, behind-piece rest h) refl

pub after-piece : {c : ℕ} {s : List ℕ} (rest : List ℕ) → Lacks c s → after c (s ++ c ∷ rest) ≡ rest
unfolding after
after-piece rest h = rw (behind-piece rest h, after) refl

pub Lacks-append : {c : ℕ} {s r : List ℕ} → Lacks c s → Lacks c r → Lacks c (s ++ r)
Lacks-append none_left k = k
Lacks-append (not_here x xs e h) k = not_here x (xs ++ _) e (Lacks-append h k)

-- Lines, each with its end.
unfoldable pub print_lines : List (List ℕ) → List ℕ
print_lines [] = []
print_lines (line ∷ lines) = line ++ newline ∷ print_lines lines

pub data All {A : Type 0} (P : A → Type 0) : List A → Type 0 where
  all_nil : All P []
  all_cons : (x : A) (xs : List A) → P x → All P xs → All P (x ∷ xs)

pub split-print_lines :
    {lines : List (List ℕ)} → All (Lacks newline) lines → split newline (print_lines lines) ≡ lines
unfolding split print_lines
split-print_lines all_nil = refl
split-print_lines (all_cons line lines h hs) =
    split-piece (print_lines lines) h ∙ ap (λ ls. line ∷ ls) (split-print_lines hs)

-- Numbers with a byte between them.
unfoldable pub print_numbers : ℕ → List ℕ → List ℕ
print_numbers c [] = []
print_numbers c (n ∷ []) = decimal n []
print_numbers c (n ∷ m ∷ ns) = decimal n (c ∷ print_numbers c (m ∷ ns))

pub decimal_on-append : (k n : ℕ) (a b : List ℕ) → decimal_on k n (a ++ b) ≡ decimal_on k n a ++ b
unfolding decimal_on
decimal_on-append zero n a b = refl
decimal_on-append (suc k) n a b = elim (Bool-cases (ltb n 10)) [
  | inl small ↦ rw small refl
  | inr large ↦ rw large (decimal_on-append k (n / 10) ((48 + n % 10) ∷ a) b)
]

-- Only digits are in front.
pub decimal_on-Lacks :
    (k n c : ℕ) (rest : List ℕ) → is_digit c ≡ false → Lacks c rest → Lacks c (decimal_on k n rest)
unfolding decimal_on
decimal_on-Lacks zero n c rest e h = h
decimal_on-Lacks (suc k) n c rest e h = elim (Bool-cases (ltb n 10)) [
  | inl small ↦ rw small (not_here (48 + n) rest (ground (arith, e, small)) h)
  | inr large ↦ rw large (
      decimal_on-Lacks k (n / 10) c ((48 + n % 10) ∷ rest) e
        (not_here (48 + n % 10) rest (ground (arith, e)) h))
]

split-decimal : (c n : ℕ) → is_digit c ≡ false → split c (decimal n []) ≡ decimal n [] ∷ []
split-decimal c n e =
    let (d, ds, q, digit) = decimal_on-starts 9 n [] in
    rw q (split-last d ds (rw q at (decimal_on-Lacks 10 n c [] e none_left)))

pub split-print_numbers :
    (c : ℕ) (ns : List ℕ)
    → is_digit c ≡ false
    → split c (print_numbers c ns) ≡ map (λ n. decimal n []) ns
unfolding split print_numbers
split-print_numbers c [] e = refl
split-print_numbers c (n ∷ []) e = split-decimal c n e
split-print_numbers c (n ∷ m ∷ ns) e =
    ap (split c) (decimal_on-append 10 n [] (c ∷ print_numbers c (m ∷ ns)))
    ∙ split-piece (print_numbers c (m ∷ ns)) (decimal_on-Lacks 10 n c [] e none_left)
    ∙ ap (λ l. decimal n [] ∷ l) (split-print_numbers c (m ∷ ns) e)

pub print_numbers-Lacks :
    (sep c : ℕ) (ns : List ℕ)
    → is_digit c ≡ false
    → (sep == c) ≡ false
    → Lacks c (print_numbers sep ns)
unfolding print_numbers
print_numbers-Lacks sep c [] e f = none_left
print_numbers-Lacks sep c (n ∷ []) e f = decimal_on-Lacks 10 n c [] e none_left
print_numbers-Lacks sep c (n ∷ m ∷ ns) e f =
    decimal_on-Lacks 10 n c (sep ∷ print_numbers sep (m ∷ ns)) e
      (not_here sep (print_numbers sep (m ∷ ns)) f (print_numbers-Lacks sep c (m ∷ ns) e f))
