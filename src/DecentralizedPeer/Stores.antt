-- ===== src/DecentralizedPeer/Stores.antt =====
-- What the stores of the threads of a broadcast come to (src/decentralized_peer.cpp).
use mathlib.Core.List.{Memᴰ}
use mathlib.Core.List.Memᴰ
use cs550_pa.Prelude.{ℕ, ◌≡◌, ◌⊎◌, inl, inr, refl, true, false, List, [], ◌∷◌, ℤ, eq_ℤ, Bool-cases}
use cs550_pa.Comms.{Msg, dup_request}
use cs550_pa.DecentralizedPeer.{Store, put_buf, put_size, put_type, stores, settle}

-- A reply that a broadcast passes over.
abbrev pub IsDup : Msg → Type 0
IsDup m = eq_ℤ m.type dup_request ≡ true

-- A reply that it takes.
abbrev pub IsAnswer : Msg → Type 0
IsAnswer m = eq_ℤ m.type dup_request ≡ false

-- A field of the shared message ends as it was, with no store to it, or as some store has left it.
pub settle_buf :
    (acc : Msg) (xs : List Store)
    → ((settle acc xs).buf ≡ acc.buf) × ((b : List ℕ) → Memᴰ (put_buf b) xs → ⊥)
      ⊎ (b : List ℕ) × Memᴰ (put_buf b) xs × ((settle acc xs).buf ≡ b)
unfolding settle
settle_buf acc [] = inl (refl, λ b m. Memᴰ.not-nil m)
settle_buf acc (put_buf b ∷ xs) = elim (settle_buf (record acc { buf = b }) xs) [
  | inl (e, nothing) ↦ inr (b, Memᴰ.head refl, e)
  | inr (c, m, e) ↦ inr (c, Memᴰ.tail m, e)
]
settle_buf acc (put_size n ∷ xs) = elim (settle_buf (record acc { size = n }) xs) [
  | inl (e, nothing) ↦
      inl (e, λ b m. elim (Memᴰ.cases_cons m) [ inl q ↦ cc q | inr k ↦ nothing b k ])
  | inr (c, m, e) ↦ inr (c, Memᴰ.tail m, e)
]
settle_buf acc (put_type t ∷ xs) = elim (settle_buf (record acc { type = t }) xs) [
  | inl (e, nothing) ↦
      inl (e, λ b m. elim (Memᴰ.cases_cons m) [ inl q ↦ cc q | inr k ↦ nothing b k ])
  | inr (c, m, e) ↦ inr (c, Memᴰ.tail m, e)
]

pub settle_size :
    (acc : Msg) (xs : List Store)
    → ((settle acc xs).size ≡ acc.size) × ((n : ℕ) → Memᴰ (put_size n) xs → ⊥)
      ⊎ (n : ℕ) × Memᴰ (put_size n) xs × ((settle acc xs).size ≡ n)
unfolding settle
settle_size acc [] = inl (refl, λ b m. Memᴰ.not-nil m)
settle_size acc (put_size n ∷ xs) = elim (settle_size (record acc { size = n }) xs) [
  | inl (e, nothing) ↦ inr (n, Memᴰ.head refl, e)
  | inr (c, m, e) ↦ inr (c, Memᴰ.tail m, e)
]
settle_size acc (put_buf b ∷ xs) = elim (settle_size (record acc { buf = b }) xs) [
  | inl (e, nothing) ↦
      inl (e, λ n m. elim (Memᴰ.cases_cons m) [ inl q ↦ cc q | inr k ↦ nothing n k ])
  | inr (c, m, e) ↦ inr (c, Memᴰ.tail m, e)
]
settle_size acc (put_type t ∷ xs) = elim (settle_size (record acc { type = t }) xs) [
  | inl (e, nothing) ↦
      inl (e, λ n m. elim (Memᴰ.cases_cons m) [ inl q ↦ cc q | inr k ↦ nothing n k ])
  | inr (c, m, e) ↦ inr (c, Memᴰ.tail m, e)
]

pub settle_type :
    (acc : Msg) (xs : List Store)
    → ((settle acc xs).type ≡ acc.type) × ((t : ℤ) → Memᴰ (put_type t) xs → ⊥)
      ⊎ (t : ℤ) × Memᴰ (put_type t) xs × ((settle acc xs).type ≡ t)
unfolding settle
settle_type acc [] = inl (refl, λ b m. Memᴰ.not-nil m)
settle_type acc (put_type t ∷ xs) = elim (settle_type (record acc { type = t }) xs) [
  | inl (e, nothing) ↦ inr (t, Memᴰ.head refl, e)
  | inr (c, m, e) ↦ inr (c, Memᴰ.tail m, e)
]
settle_type acc (put_buf b ∷ xs) = elim (settle_type (record acc { buf = b }) xs) [
  | inl (e, nothing) ↦
      inl (e, λ t m. elim (Memᴰ.cases_cons m) [ inl q ↦ cc q | inr k ↦ nothing t k ])
  | inr (c, m, e) ↦ inr (c, Memᴰ.tail m, e)
]
settle_type acc (put_size n ∷ xs) = elim (settle_type (record acc { size = n }) xs) [
  | inl (e, nothing) ↦
      inl (e, λ t m. elim (Memᴰ.cases_cons m) [ inl q ↦ cc q | inr k ↦ nothing t k ])
  | inr (c, m, e) ↦ inr (c, Memᴰ.tail m, e)
]

-- Only a thread with an answer stores, and what it stores are the fields of the answer.
pub stored_buf : (m : Msg) (b : List ℕ) → Memᴰ (put_buf b) (stores m) → IsAnswer m × (b ≡ m.buf)
unfolding stores
stored_buf m b h = elim (Bool-cases (eq_ℤ m.type dup_request)) [
  | inl dup ↦ absurd (Memᴰ.not-nil (rw dup at h))
  | inr answers ↦ elim (Memᴰ.cases_cons (rw answers at h)) [
    | inl q ↦ (answers, cc q)
    | inr k ↦ elim (Memᴰ.cases_cons k) [
      | inl q ↦ cc q
      | inr k' ↦ elim (Memᴰ.cases_cons k') [ inl q ↦ cc q | inr k'' ↦ absurd (Memᴰ.not-nil k'') ]
    ]
  ]
]

pub stored_size : (m : Msg) (n : ℕ) → Memᴰ (put_size n) (stores m) → IsAnswer m × (n ≡ m.size)
unfolding stores
stored_size m n h = elim (Bool-cases (eq_ℤ m.type dup_request)) [
  | inl dup ↦ absurd (Memᴰ.not-nil (rw dup at h))
  | inr answers ↦ elim (Memᴰ.cases_cons (rw answers at h)) [
    | inl q ↦ cc q
    | inr k ↦ elim (Memᴰ.cases_cons k) [
      | inl q ↦ (answers, cc q)
      | inr k' ↦ elim (Memᴰ.cases_cons k') [ inl q ↦ cc q | inr k'' ↦ absurd (Memᴰ.not-nil k'') ]
    ]
  ]
]

pub stored_type : (m : Msg) (t : ℤ) → Memᴰ (put_type t) (stores m) → IsAnswer m × (t ≡ m.type)
unfolding stores
stored_type m t h = elim (Bool-cases (eq_ℤ m.type dup_request)) [
  | inl dup ↦ absurd (Memᴰ.not-nil (rw dup at h))
  | inr answers ↦ elim (Memᴰ.cases_cons (rw answers at h)) [
    | inl q ↦ cc q
    | inr k ↦ elim (Memᴰ.cases_cons k) [
      | inl q ↦ cc q
      | inr k' ↦ elim (Memᴰ.cases_cons k') [
        | inl q ↦ (answers, cc q)
        | inr k'' ↦ absurd (Memᴰ.not-nil k'')
      ]
    ]
  ]
]

pub answer_stores :
    (m : Msg)
    → IsAnswer m
    → Memᴰ (put_buf m.buf) (stores m)
      × Memᴰ (put_size m.size) (stores m)
      × Memᴰ (put_type m.type) (stores m)
unfolding stores
answer_stores m answers =
    rw answers (Memᴰ.head refl, Memᴰ.tail (Memᴰ.head refl), Memᴰ.tail (Memᴰ.tail (Memᴰ.head refl)))

pub msg_eq : (a b : Msg) → a.buf ≡ b.buf → a.size ≡ b.size → a.type ≡ b.type → a ≡ b
msg_eq a b p q t = cc (p, q, t)
