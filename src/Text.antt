-- ===== src/Text.antt =====
-- What src/decentralized_peer.cpp, src/peer_cli.cpp and src/benchmarks.cpp use of C++'s strings: `getline`,
-- `find`, `substr`, `stoi`, and the `%d` of `printf`. A string is the list of its bytes.
pub mod Numbers
pub mod Lines
use cs550_pa.Prelude.{
  ℕ, zero, suc, ◌+◌, ◌-◌, ◌*◌, ◌/◌, ◌%◌, ◌^◌, Bool, true, false, ◌&&◌, ◌||◌, ◌==◌, ltb, leb,
  if◌then◌else◌, Option, none, some, List, [], ◌∷◌, ℤ, pos, negsuc,
}

abbrev pub newline : ℕ
newline = 10

abbrev pub comma : ℕ
comma = 44

abbrev pub minus : ℕ
minus = 45

abbrev pub plus : ℕ
plus = 43

abbrev pub colon : ℕ
colon = 58

-- Puts a byte in front of the first piece.
abbrev pub put_front : ℕ → List (List ℕ) → List (List ℕ)
put_front c [] = (c ∷ []) ∷ []
put_front c (line ∷ lines) = (c ∷ line) ∷ lines

-- The pieces that `getline` gives one after the other: none for an empty rest.
unfoldable pub split : ℕ → List ℕ → List (List ℕ)
split delim [] = []
split delim (c ∷ cs) =
    let rest = split delim cs in if c == delim then [] ∷ rest else put_front c rest

-- `s.substr(0, s.find(c))`, all of `s` where `find` gives npos.
unfoldable pub before : ℕ → List ℕ → List ℕ
before delim [] = []
before delim (c ∷ cs) = if c == delim then [] else c ∷ before delim cs

-- What is behind the first `delim`; `none` where `find` gives npos.
unfoldable pub behind : ℕ → List ℕ → Option (List ℕ)
behind delim [] = none
behind delim (c ∷ cs) = if c == delim then some cs else behind delim cs

-- `s.substr(s.find(c) + 1)`, all of `s` where `find` gives npos, since npos + 1 is 0.
unfoldable pub after : ℕ → List ℕ → List ℕ
after delim s = elim (behind delim s) [ none ↦ s | some rest ↦ rest ]

abbrev pub is_digit : ℕ → Bool
is_digit c = leb 48 c && leb c 57

abbrev pub is_space : ℕ → Bool
is_space c = c == 32 || (leb 9 c && leb c 13)

-- The value of the digits in front, after those that make up `acc`.
unfoldable pub digits : ℕ → List ℕ → ℕ
digits acc [] = acc
digits acc (c ∷ cs) = let rest = digits (acc * 10 + (c - 48)) cs in if is_digit c then rest else acc

unfoldable pub skip_spaces : List ℕ → List ℕ
skip_spaces [] = []
skip_spaces (c ∷ cs) = let rest = skip_spaces cs in if is_space c then rest else c ∷ cs

unfoldable pub unsigned : List ℕ → Option ℕ
unsigned [] = none
unsigned (c ∷ cs) = if is_digit c then some (digits 0 (c ∷ cs)) else none

-- An `int`, if the value is in its range.
abbrev pub int_of : Bool → ℕ → Option ℤ
int_of false n = if ltb n (2 ^ 31) then some (pos n) else none
int_of true zero = some (pos 0)
int_of true (suc n) = if ltb n (2 ^ 31) then some (negsuc n) else none

abbrev pub signed_of : Bool → Option ℕ → Option ℤ
signed_of negative none = none
signed_of negative (some n) = int_of negative n

unfoldable pub signed : List ℕ → Option ℤ
signed [] = none
signed (c ∷ cs) =
    if c == minus
    then signed_of true (unsigned cs)
    else if c == plus
    then signed_of false (unsigned cs)
    else signed_of false (unsigned (c ∷ cs))

-- `stoi`; `none` is the exception that it throws.
unfoldable pub stoi : List ℕ → Option ℤ
stoi s = signed (skip_spaces s)

-- The decimal digits of a number below 10 ^ k, in front of `rest`.
unfoldable pub decimal_on : ℕ → ℕ → List ℕ → List ℕ
decimal_on zero n rest = rest
decimal_on (suc k) n rest =
    if ltb n 10 then (48 + n) ∷ rest else decimal_on k (n / 10) ((48 + n % 10) ∷ rest)

-- `%d` of an `int` that is not negative, in front of `rest`.
abbrev pub decimal : ℕ → List ℕ → List ℕ
decimal n rest = decimal_on 10 n rest
