-- ===== src/Comms/Name.antt =====
-- C strings in fixed arrays, and `getname` of src/comms.c.
use cs550_pa.Prelude.{
  ℕ, zero, suc, ◌+◌, ◌-◌, ◌==◌, if◌then◌else◌, List, [], ◌∷◌, ◌++◌, length, take, replicate, set,
  get_or,
}

-- The bytes of a C string: those before the first zero.
unfoldable pub cstring : List ℕ → List ℕ
cstring [] = []
cstring (b ∷ bs) = if b == 0 then [] else b ∷ cstring bs

-- An array of `len` bytes that was all zero, after `bytes` were written at its start.
unfoldable pub array : ℕ → List ℕ → List ℕ
array len bytes = take len bytes ++ replicate (len - length (take len bytes)) 0

-- The index of the last slash before the end of the array; `last` is the one found so far.
unfoldable pub last_slash : List ℕ → ℕ → ℕ → ℕ
last_slash [] i last = last
last_slash (b ∷ bs) i last = last_slash bs (i + 1) (if b == b'/' then i else last)

-- `for(i …; rounds more) absolute_path[i] = absolute_path[i + off]`
unfoldable pub shift_loop : ℕ → ℕ → ℕ → List ℕ → List ℕ
shift_loop zero i off a = a
shift_loop (suc rounds) i off a = shift_loop rounds (i + 1) off (set a i (get_or a (i + off) 0))

-- `memset(a + from, 0, n)`
unfoldable pub zero_loop : ℕ → ℕ → List ℕ → List ℕ
zero_loop zero from a = a
zero_loop (suc n) from a = zero_loop n (from + 1) (set a from 0)

unfoldable pub getname : List ℕ → ℕ → List ℕ
getname absolute_path len =
    let lastslash = last_slash (take len absolute_path) 0 0 in
    let zeroout = len - lastslash in
    zero_loop lastslash zeroout (shift_loop (zeroout - 1) 0 (lastslash + 1) absolute_path)
