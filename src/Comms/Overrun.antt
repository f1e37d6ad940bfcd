-- ===== src/Comms/Overrun.antt =====
-- The write of `recvupdt_msg` in src/comms.c behind the end of its block.
use cs550_pa.Prelude.{
  ℕ, zero, suc, ◌+◌, ◌-◌, ◌^◌, ◌≤◌, ◌<◌, ◌≡◌, refl, ◌∙◌, arith, none, some, List, [], ◌∷◌, ◌++◌, ℤ,
  length, take, drop, length-append, length-drop, length-take, suc-eq-zero, ge→ltb,
}
use cs550_pa.Comms.{Malloc, fault}
use cs550_pa.Comms.Recv.{Delivery, received, store_at, recv_loop, bytes_left, recvupdt_msg}
use cs550_pa.Comms.Header.{bytes_left-eq}
use cs550_pa.Comms.Reassemble.{store_at-append}
use cs550_pa.Comms.RoundTrip.{count_of, count_of_short, Allocates}

-- A write that ends behind the block is out of bounds.
store_at-none :
    (header at : ℕ) (c block : List ℕ)
    → 0 < length c
    → length block < (at - header) + length c
    → store_at header at c block ≡ none
unfolding store_at
store_at-none header at [] block h k = absurd (omega arith)
store_at-none header at (b ∷ bs) block h k = ground arith

recv_loop-fault :
    (fuel header at left : ℕ) (events : List Delivery) (c block : List ℕ)
    → store_at header at c block ≡ none
    → recv_loop (suc fuel) (received c ∷ events) header block at (suc left) ≡ fault
unfolding recv_loop
recv_loop-fault fuel header at left events c block e = rw (suc-eq-zero left, e)

recvupdt_msg_fails :
    (malloc : Malloc) (fuel : ℕ) (events : List Delivery) (type : ℤ) (size n left : ℕ)
    (prv copied raw block : List ℕ)
    → malloc (suc size) ≡ some raw
    → count_of n (suc size) ≡ n
    → n ≤ 1012
    → take n (drop 12 prv) ≡ copied
    → store_at 12 12 copied raw ≡ some block
    → bytes_left (suc size) 12 (12 + n) ≡ left
    → recv_loop fuel events 12 block (12 + n) left ≡ fault
    → recvupdt_msg malloc fuel events type (suc size) (12 + n) prv ≡ fault
unfolding recvupdt_msg count_of
recvupdt_msg_fails malloc fuel events type size n left prv copied raw block alloc count fits copy
      stored missing loop =
    rw (suc-eq-zero size, alloc, count, ge→ltb 1012 n fits, copy, stored, missing, loop)

-- If the first delivery brings only `n` bytes of the payload of an update message, and the next one
-- brings more than are missing, as it does when it has the zeros with which `sendupdt_msg` fills its
-- packet, then `recvupdt_msg` writes behind the block that it has allocated.
pub recvupdt_msg-fault :
    (malloc : Malloc) (fuel : ℕ) (events : List Delivery) (type : ℤ) (size n : ℕ)
    (prv raw c : List ℕ)
    → Allocates malloc size raw
    → length prv ≡ 1024
    → size + 12 < 2 ^ 31
    → n < size
    → n ≤ 1012
    → size < n + length c
    → 0 < fuel
    → recvupdt_msg malloc fuel (received c ∷ events) type size (12 + n) prv ≡ fault
recvupdt_msg-fault malloc fuel events type zero n prv raw c al l small h fits over f =
    absurd (omega arith)
recvupdt_msg-fault malloc zero events type size n prv raw c al l small h fits over f =
    absurd (omega arith)
recvupdt_msg-fault malloc (suc fuel) events type (suc size) n prv raw c al l small h fits over f =
    let copied = take n (drop 12 prv) in
    let count : length copied ≡ n =
      omega (arith, length-take n (drop 12 prv), length-drop 12 prv, l) in
    let block = copied ++ drop (length copied) raw in
    let whole : length block ≡ suc size = omega (
      arith,
      count,
      al.block,
      length-append copied (drop (length copied) raw),
      length-drop (length copied) raw,
    ) in
    recvupdt_msg_fails malloc (suc fuel) (received c ∷ events) type size n (suc (size - n)) prv
      copied raw block al.alloc (count_of_short n (suc size) h) fits refl
      (store_at-append 12 [] copied raw (omega (arith, count, al.block)))
      (bytes_left-eq (suc size) 12 (12 + n) small (omega arith) ∙ omega arith)
      (recv_loop-fault fuel 12 (12 + n) (size - n) events c block
        (store_at-none 12 (12 + n) c block (omega arith) (omega (arith, whole))))
