-- ===== src/Comms/Basename.antt =====
-- `getname` of src/comms.c leaves the last component of a path.
use Prim.Native.Nat.add
use native.Mathlib.Nat.{add_comm}
use cs550_pa.Prelude.{
  ℕ, zero, suc, ◌+◌, ◌-◌, ◌≤◌, ◌<◌, ◌≡◌, ◌≢◌, refl, sym, ap, ◌∙◌, arith, List, [], ◌∷◌, ◌++◌,
  length, take, replicate, set, get_or, length-set, length-append, length-replicate, length-take,
  take-length, ltb, leb, ◌==◌, ◌&&◌, if◌then◌else◌, append_assoc,
}
use cs550_pa.Comms.Name.{cstring, array, last_slash, shift_loop, zero_loop, getname}

-- Every byte differs from `c`.
abbrev pub Avoids : ℕ → List ℕ → Type 0
Avoids c [] = Unit {0}
Avoids c (b ∷ bs) = (b ≢ c) × Avoids c bs

Avoids-append : (c : ℕ) (xs ys : List ℕ) → Avoids c xs → Avoids c ys → Avoids c (xs ++ ys)
Avoids-append c [] ys h k = k
Avoids-append c (x ∷ xs) ys h k = (h.0, Avoids-append c xs ys h.1 k)

Avoids-replicate : (c n b : ℕ) → b ≢ c → Avoids c (replicate n b)
Avoids-replicate c zero b h = tt
Avoids-replicate c (suc n) b h = (h, Avoids-replicate c n b h)

pub length-array : (len : ℕ) (bytes : List ℕ) → length (array len bytes) ≡ len
unfolding array
length-array len bytes = omega (
  arith,
  length-append (take len bytes) (replicate (len - length (take len bytes)) zero),
  length-take len bytes,
  length-replicate (len - length (take len bytes)) zero,
)

length-shift_loop : (n i off : ℕ) (a : List ℕ) → length (shift_loop n i off a) ≡ length a
unfolding shift_loop
length-shift_loop zero i off a = refl
length-shift_loop (suc n) i off a = length-shift_loop n (i + 1) off _ ∙ length-set a i _

length-zero_loop : (n from : ℕ) (a : List ℕ) → length (zero_loop n from a) ≡ length a
unfolding zero_loop
length-zero_loop zero from a = refl
length-zero_loop (suc n) from a = length-zero_loop n (from + 1) _ ∙ length-set a from 0

pub length-getname : (a : List ℕ) (len : ℕ) → length (getname a len) ≡ length a
unfolding getname
length-getname a len =
    let slash = last_slash (take len a) 0 0 in
    length-zero_loop slash (len - slash) (shift_loop (len - slash - 1) 0 (slash + 1) a)
    ∙ length-shift_loop (len - slash - 1) 0 (slash + 1) a

last_slash-Avoids : (xs : List ℕ) (i last : ℕ) → Avoids b'/' xs → last_slash xs i last ≡ last
unfolding last_slash
last_slash-Avoids [] i last h = refl
last_slash-Avoids (b ∷ xs) i last h = ground (arith, last_slash-Avoids xs (i + 1) last h.1)

last_slash-append :
    (dir rest : List ℕ) (i last : ℕ)
    → Avoids b'/' rest
    → last_slash (dir ++ b'/' ∷ rest) i last ≡ i + length dir
unfolding last_slash
last_slash-append [] rest i last h = last_slash-Avoids rest (i + 1) i h ∙ omega arith
last_slash-append (b ∷ dir) rest i last h = last_slash-append dir rest (i + 1) _ h ∙ omega arith

get_or-set :
    (a : List ℕ) (i v j : ℕ)
    → i < length a
    → get_or (set a i v) j 0 ≡ (if i == j then v else get_or a j 0)
get_or-set [] i v j h = absurd (omega arith)
get_or-set (x ∷ a) zero v zero h = refl
get_or-set (x ∷ a) zero v (suc j) h = ground arith
get_or-set (x ∷ a) (suc i) v zero h = ground arith
get_or-set (x ∷ a) (suc i) v (suc j) h = ground (arith, get_or-set a i v j)

-- The loop reads ahead of where it writes, so it shifts what was there at the start.
get_or-shift_loop :
    (n i off : ℕ) (a : List ℕ) (j : ℕ)
    → 0 < off
    → i + n ≤ length a
    → get_or (shift_loop n i off a) j 0
      ≡ (if leb i j && ltb j (i + n) then get_or a (j + off) 0 else get_or a j 0)
unfolding shift_loop
get_or-shift_loop zero i off a j p h = ground arith
get_or-shift_loop (suc n) i off a j p h =
    get_or-shift_loop n (i + 1) off (set a i (get_or a (i + off) 0)) j p
      (omega (arith, length-set a i (get_or a (i + off) 0)))
    ∙ ground (
      arith,
      get_or-set a i (get_or a (i + off) 0) j,
      get_or-set a i (get_or a (i + off) 0) (j + off),
    )

get_or-zero_loop :
    (n from : ℕ) (a : List ℕ) (j : ℕ)
    → j < from
    → from + n ≤ length a
    → get_or (zero_loop n from a) j 0 ≡ get_or a j 0
unfolding zero_loop
get_or-zero_loop zero from a j p h = refl
get_or-zero_loop (suc n) from a j p h =
    get_or-zero_loop n (from + 1) (set a from 0) j (omega arith)
      (omega (arith, length-set a from 0))
    ∙ ground (arith, get_or-set a from 0 j)

get_or-append_right : (xs ys : List ℕ) (j : ℕ) → get_or (xs ++ ys) (j + length xs) 0 ≡ get_or ys j 0
get_or-append_right [] ys j = rw (add_comm j 0, add.zero j)
get_or-append_right (x ∷ xs) ys j =
    ap (λ n. get_or (x ∷ (xs ++ ys)) n 0) (shift j (length xs)) ∙ get_or-append_right xs ys j
  where
    shift : (m n : ℕ) → m + suc n ≡ suc (m + n)
    shift m n = omega arith

get_or-append_left :
    (xs ys : List ℕ) (j : ℕ) → j < length xs → get_or (xs ++ ys) j 0 ≡ get_or xs j 0
get_or-append_left [] ys j h = absurd (omega arith)
get_or-append_left (x ∷ xs) ys zero h = refl
get_or-append_left (x ∷ xs) ys (suc j) h = get_or-append_left xs ys j (omega arith)

-- The C string of an array, byte by byte.
cstring-pointwise :
    (xs base : List ℕ)
    → Avoids 0 base
    → ((j : ℕ) → j < length base → get_or xs j 0 ≡ get_or base j 0)
    → get_or xs (length base) 0 ≡ 0
    → cstring xs ≡ base
unfolding cstring
cstring-pointwise [] [] h same end = refl
cstring-pointwise (x ∷ xs) [] h same end = rw end
cstring-pointwise [] (b ∷ base) h same end = absurd (h.0 (sym (same 0 (omega arith))))
cstring-pointwise (x ∷ xs) (b ∷ base) h same end = ground (
  arith,
  same 0 (omega arith),
  cstring-pointwise xs base h.1 (λ j p. same (suc j) (omega arith)) end,
)

-- The array of a path, cut behind its last slash.
array-split :
    (len : ℕ) (dir base : List ℕ)
    → length (dir ++ b'/' ∷ base) ≤ len
    → array len (dir ++ b'/' ∷ base)
      ≡ dir ++ b'/' ∷ (base ++ replicate (len - length (dir ++ b'/' ∷ base)) 0)
unfolding array
array-split len dir base h =
    rw (take-length len (dir ++ b'/' ∷ base) h) (append_assoc dir (b'/' ∷ base) _)

module _ (len : ℕ) (dir tail : List ℕ) (h : length (dir ++ b'/' ∷ tail) ≡ len) where
  -- The byte of the shifted array at an index that the shift reaches.
  get_or-getname :
      (j : ℕ)
      → Avoids b'/' tail
      → j < length tail
      → get_or (getname (dir ++ b'/' ∷ tail) len) j 0 ≡ get_or tail j 0
  unfolding getname
  get_or-getname j clean p =
      let a = dir ++ b'/' ∷ tail in
      let d = length dir in
      let total = length-append dir (b'/' ∷ tail) in
      rw (take-length len a (omega (arith, h)), last_slash-append dir tail 0 0 clean, add.zero d)
        (get_or-zero_loop d (len - d) (shift_loop (len - d - 1) 0 (d + 1) a) j
            (omega (arith, total, h))
            (omega (arith, total, h, length-shift_loop (len - d - 1) 0 (d + 1) a))
          ∙ get_or-shift_loop (len - d - 1) 0 (d + 1) a j (omega arith) (omega (arith, total, h))
          ∙ ground (arith, total, h, get_or-append_right dir (b'/' ∷ tail) (j + 1)))

closing_zero : (base : List ℕ) (n : ℕ) → 0 < n → get_or (base ++ replicate n 0) (length base) 0 ≡ 0
closing_zero [] (suc n) h = refl
closing_zero [] zero h = refl
closing_zero (b ∷ base) n h = closing_zero base n h

-- Of a path that fits the array with its closing zero, `getname` leaves the part behind the last slash,
-- as a C string: `base` has no slash and no zero.
pub cstring-getname :
    (len : ℕ) (dir base : List ℕ)
    → length (dir ++ b'/' ∷ base) < len
    → Avoids b'/' base
    → Avoids 0 base
    → cstring (getname (array len (dir ++ b'/' ∷ base)) len) ≡ base
cstring-getname len dir base fits clean nonzero =
    let n = len - length (dir ++ b'/' ∷ base) in
    let tail = base ++ replicate n 0 in
    let size = length-append dir (b'/' ∷ tail) in
    let sizes = length-append base (replicate n zero) in
    let total : length (dir ++ b'/' ∷ tail) ≡ len =
      omega (arith, size, sizes, length-append dir (b'/' ∷ base), length-replicate n zero) in
    let avoid =
      Avoids-append b'/' base (replicate n 0) clean (Avoids-replicate b'/' n 0 (omega arith)) in
    let long : length base < length tail = omega (arith, sizes, length-replicate n zero) in
    rw (array-split len dir base (omega arith)) (
      cstring-pointwise (getname (dir ++ b'/' ∷ tail) len) base nonzero
        (λ j p.
          get_or-getname len dir tail total j avoid (omega arith)
          ∙ get_or-append_left base (replicate n 0) j p)
        (get_or-getname len dir tail total (length base) avoid long
          ∙ closing_zero base n (omega arith)))
