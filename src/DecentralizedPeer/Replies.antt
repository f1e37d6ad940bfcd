-- ===== src/DecentralizedPeer/Replies.antt =====
-- What the replies to a broadcast of src/decentralized_peer.cpp come to.
use mathlib.Core.List.{Memᴰ}
use mathlib.Core.List.Memᴰ
use cs550_pa.Prelude.{
  ◌≡◌, ◌↔◌, ◌⊎◌, inl, inr, refl, ◌∙◌, false, List, [], ◌∷◌, map, ℤ, eq_ℤ, Bool-cases,
}
use cs550_pa.Comms.{Conn, Msg, dup_request}
use cs550_pa.DecentralizedPeer.Stores.{
  IsDup, IsAnswer, settle_buf, settle_size, settle_type, stored_buf, stored_size, stored_type,
  answer_stores, msg_eq,
}
use cs550_pa.DecentralizedPeer.{
  World, Peer, Store, put_buf, put_size, put_type, stores, others, settle, bare,
}

pub others_back :
    (sender n : Conn) (ns : List Conn)
    → Memᴰ n ns
    → eq_ℤ n.addr sender.addr ≡ false
    → Memᴰ n (others sender ns)
unfolding others
others_back sender n [] h e = absurd (Memᴰ.not-nil h)
others_back sender n (x ∷ ns) h e = elim (Bool-cases (eq_ℤ x.addr sender.addr)) [
  | inl same ↦ elim (Memᴰ.cases_cons h) [
    | inl q ↦ cc (same, e, q)
    | inr r ↦ rw same (others_back sender n ns r e)
  ]
  | inr other ↦ elim (Memᴰ.cases_cons h) [
    | inl q ↦ rw other (Memᴰ.head q)
    | inr r ↦ rw other (Memᴰ.tail (others_back sender n ns r e))
  ]
]

pub others_iff :
    (sender n : Conn) (ns : List Conn)
    → Memᴰ n (others sender ns)
    → Memᴰ n ns × (eq_ℤ n.addr sender.addr ≡ false)
unfolding others
others_iff sender n [] h = absurd (Memᴰ.not-nil h)
others_iff sender n (x ∷ ns) h = elim (Bool-cases (eq_ℤ x.addr sender.addr)) [
  | inl same ↦ let r = others_iff sender n ns (rw same at h) in (Memᴰ.tail r.0, r.1)
  | inr other ↦ elim (Memᴰ.cases_cons (rw other at h)) [
    | inl e ↦ (Memᴰ.head e, rw e other)
    | inr r ↦ let q = others_iff sender n ns r in (Memᴰ.tail q.0, q.1)
  ]
]

unmap :
    (f : Conn → List Store) (xs : List Store) (ns : List Conn)
    → Memᴰ xs (map f ns)
    → (n : Conn) × Memᴰ n ns × (xs ≡ f n)
unmap f m [] h = absurd (Memᴰ.not-nil h)
unmap f m (n ∷ ns) h = elim (Memᴰ.cases_cons h) [
  | inl e ↦ (n, Memᴰ.head refl, e)
  | inr r ↦ let (x, there, e) = unmap f m ns r in (x, Memᴰ.tail there, e)
]

-- The stores of the threads happen in some order: all of them, and no others.
abbrev pub KeepsReplies : (List (List Store) → List Store) → Type 0
KeepsReplies finish =
    (threads : List (List Store)) (x : Store)
    → Memᴰ x (finish threads) ↔ (xs : List Store) × Memᴰ xs threads × Memᴰ x xs

-- A neighbour that is asked, and replies with more than a DUP_REQUEST.
pub record Answering (w : World) (sender : Conn) (request : Msg) (peer : Peer) (n : Conn)
    : Type 0 where
  pub neighbor : Memᴰ n peer.neighbors
  pub not_sender : eq_ℤ n.addr sender.addr ≡ false
  pub answers : IsAnswer (w.ask n request)

-- What a broadcast comes to: a bare DUP_REQUEST if every neighbour but the sender has replied with one,
-- otherwise a message of which each field is from the reply of one of these neighbours that has not.
abbrev pub Broadcasts : World → Conn → Msg → Peer → Msg → Type 0
Broadcasts w sender request peer r =
    ((n : Conn) → Memᴰ n (others sender peer.neighbors) → IsDup (w.ask n request))
      × (r ≡ bare dup_request)
    ⊎ (b n t : Conn) × Answering w sender request peer b
      × Answering w sender request peer n
      × Answering w sender request peer t
      × (r.buf ≡ (w.ask b request).buf)
      × (r.size ≡ (w.ask n request).size)
      × (r.type ≡ (w.ask t request).type)

module _ (w : World) (sender : Conn) (request : Msg) (peer : Peer)
    (keeps : KeepsReplies w.finish) where
  abbrev pub thread : Conn → List Store
  thread n = stores (w.ask n request)

  abbrev pub done_by : List Store
  done_by = w.finish (map thread (others sender peer.neighbors))

  pub stored_by :
      (x : Store)
      → Memᴰ x done_by
      → (n : Conn) × Memᴰ n (others sender peer.neighbors) × Memᴰ x (thread n)
  stored_by x h =
      let (xs, there, inside) = (keeps (map thread (others sender peer.neighbors)) x).0 h in
      let (n, asked, e) = unmap thread xs (others sender peer.neighbors) there in
      (n, asked, rw e at inside)

  stores_of :
      (x : Store) (n : Conn)
      → Memᴰ n (others sender peer.neighbors)
      → Memᴰ x (thread n)
      → Memᴰ x done_by
  stores_of x n asked h =
      (keeps (map thread (others sender peer.neighbors)) x).1 (thread n, Memᴰ.map thread asked, h)

  answering :
      (n : Conn)
      → Memᴰ n (others sender peer.neighbors)
      → IsAnswer (w.ask n request)
      → Answering w sender request peer n
  answering n asked answers =
      let (neighbor, other) = others_iff sender n peer.neighbors asked in
      record { neighbor = neighbor; not_sender = other; answers = answers }

  -- With no store to the type, no thread has an answer, and nothing is stored.
  pub no_answers :
      ((t : ℤ) → Memᴰ (put_type t) done_by → ⊥)
      → ((n : Conn) → Memᴰ n (others sender peer.neighbors) → IsDup (w.ask n request))
        × (settle (bare dup_request) done_by ≡ bare dup_request)
  no_answers nothing =
      let all : (n : Conn) → Memᴰ n (others sender peer.neighbors) → IsDup (w.ask n request) =
        λ n asked. elim (Bool-cases (eq_ℤ (w.ask n request).type dup_request)) [
          | inl dup ↦ dup
          | inr answers ↦ absurd (
              nothing (w.ask n request).type (
                stores_of (put_type (w.ask n request).type) n asked
                  (answer_stores (w.ask n request) answers).2))
        ] in
      (all, nothing_stored all)
    where
      nothing_stored :
          ((n : Conn) → Memᴰ n (others sender peer.neighbors) → IsDup (w.ask n request))
          → settle (bare dup_request) done_by ≡ bare dup_request
      nothing_stored all =
          msg_eq (settle (bare dup_request) done_by) (bare dup_request)
            (elim (settle_buf (bare dup_request) done_by) [
              | inl (e, never) ↦ e
              | inr (b, m, e) ↦
                  let (n, asked, h) = stored_by (put_buf b) m in
                  cc (all n asked, (stored_buf (w.ask n request) b h).0)
            ])
            (elim (settle_size (bare dup_request) done_by) [
              | inl (e, never) ↦ e
              | inr (k, m, e) ↦
                  let (n, asked, h) = stored_by (put_size k) m in
                  cc (all n asked, (stored_size (w.ask n request) k h).0)
            ])
            (elim (settle_type (bare dup_request) done_by) [
              | inl (e, never) ↦ e
              | inr (t, m, e) ↦ absurd (nothing t m)
            ])

  pub some_answer :
      (n : Conn)
      → Memᴰ n (others sender peer.neighbors)
      → IsAnswer (w.ask n request)
      → (t : ℤ) → Memᴰ (put_type t) done_by
      → (settle (bare dup_request) done_by).type ≡ t
      → Broadcasts w sender request peer (settle (bare dup_request) done_by)
  some_answer n asked answers t h e =
      let (put_b, put_n, _) = answer_stores (w.ask n request) answers in
      let (nt, asked_t, ht) = stored_by (put_type t) h in
      let (answers_t, et) = stored_type (w.ask nt request) t ht in
      elim (settle_buf (bare dup_request) done_by) [
        | inl (_, never) ↦
            absurd (
              never (w.ask n request).buf (stores_of (put_buf (w.ask n request).buf) n asked put_b))
        | inr (b, mb, eb) ↦ elim (settle_size (bare dup_request) done_by) [
          | inl (_, never) ↦ absurd (
              never (w.ask n request).size
                (stores_of (put_size (w.ask n request).size) n asked put_n))
          | inr (k, mk, ek) ↦
              let (nb, asked_b, hb) = stored_by (put_buf b) mb in
              let (answers_b, eb') = stored_buf (w.ask nb request) b hb in
              let (nk, asked_k, hk) = stored_by (put_size k) mk in
              let (answers_k, ek') = stored_size (w.ask nk request) k hk in
              inr (
                nb,
                nk,
                nt,
                answering nb asked_b answers_b,
                answering nk asked_k answers_k,
                answering nt asked_t answers_t,
                eb ∙ eb',
                ek ∙ ek',
                e ∙ et,
              )
        ]
      ]
