-- ===== src/Sockets/Leaks.antt =====
-- No socket stays open behind the connections of src/server.cpp and src/messages.cpp.
use native.Mathlib.Decide.{ℕ_discrete}
use cs550_pa.Prelude.{
  ℕ, ◌+◌, ◌≡◌, ◌≢◌, ◌==◌, refl, arith, Bool, true, false, eq_ℤ, if◌then◌else◌, Option, none, some,
  List, [], ◌∷◌, ◌++◌, ℤ, pos, negsuc,
}
use cs550_pa.Comms.{Conn, done}
use cs550_pa.Sockets.{
  Table, mark, socket, close, Poll, Accepted, clntinitco_conn, close_conn, send_once, replicate_to,
}
use cs550_pa.Sockets.Loop.{Serving, loop_turn}

-- The system gives a descriptor that is not open, and no client has the address 255.255.255.255.
abbrev pub IsNew : Accepted → Table → Type 0
IsNew none table = Unit
IsNew (some (fd, addr, port)) table = (table fd ≡ false) × (addr ≢ negsuc 0)

-- What `recv_msg` and the handler of a job come to: they open and close descriptors of their own, and
-- leave some open, as `createfile_msg` does with a file that cannot be mapped.
pub data Leaves : Table → List ℕ → Table → Type 0 where
  nothing : (table : Table) → Leaves table [] table
  left :
      (table after : Table) (fd : ℕ) (fds : List ℕ)
      → table fd ≡ false
      → Leaves (mark table fd true) fds after
      → Leaves table (fd ∷ fds) after

-- What the loop and the jobs can come to, in any order: a turn of the loop, or the job of some client,
-- which ends with its connection closed. The list has the descriptors that the jobs have left open.
pub data Serves (first : Table) : List ℕ → Serving → Type 0 where
  started : Serves first [] (record { table = first; clients = [] })
  turned :
      (fds : List ℕ) (s s' : Serving) (polls : List Poll) (accepted : Accepted)
      → Serves first fds s
      → IsNew accepted s.table
      → loop_turn polls accepted s ≡ done s'
      → Serves first fds s'
  handled :
      (fds more : List ℕ) (s : Serving) (table : Table) (client : Conn) (before after : List Conn)
      → Serves first fds s
      → s.clients ≡ before ++ client ∷ after
      → Leaves s.table more table
      → Serves first
          (more ++ fds)
          (record { table = (close_conn client table).1; clients = before ++ after })

abbrev pub bit : Bool → ℕ
bit b = if b then 1 else 0

-- How many of the clients have a descriptor.
unfoldable count : ℕ → List Conn → ℕ
count fd [] = 0
count fd (c ∷ cs) = bit (eq_ℤ c.sock (pos fd)) + count fd cs

-- How often a descriptor is in a list.
unfoldable pub times : ℕ → List ℕ → ℕ
times fd [] = 0
times fd (x ∷ xs) = bit (x == fd) + times fd xs

-- The open descriptors are those that count in `first`, and those of the clients.
abbrev Accounted : (ℕ → ℕ) → Serving → Type 0
Accounted first s = (fd : ℕ) → bit (s.table fd) ≡ first fd + count fd s.clients

-- What is accounted for besides the clients.
abbrev held : Table → List ℕ → ℕ → ℕ
held first fds fd = bit (first fd) + times fd fds

-- The same of a connection that is made, used and closed.
around_close :
    (new : Option ℕ) (table : Table) (fd : ℕ)
    → ((n : ℕ) → new ≡ some n → table n ≡ false)
    → close (socket new table).0 (socket new table).1 fd ≡ table fd
around_close none table fd h = refl
around_close (some n) table fd h = elim (ℕ_discrete fd n) [
  | yes q ↦ ground (arith, q, h n refl)
  | no ne ↦ ground (arith, ne)
]

-- `send_once` closes the socket that it opens, whether the message was sent or not and even if `connect`
-- has failed, and so does a turn of the loop of `request_replication`: the same descriptors are open
-- before and after, if the system gives no descriptor that is open.
pub send_once-closed :
    (new : Option ℕ) (connects : ℤ → ℤ → Bool) (junk : Conn) (sends : Conn → Bool) (dest : Conn)
    (table : Table)
    → ((n : ℕ) → new ≡ some n → table n ≡ false)
    → ((fd : ℕ) → (send_once new connects junk sends dest table).1 fd ≡ table fd)
      × ((fd : ℕ) → replicate_to new connects junk dest table fd ≡ table fd)
unfolding send_once replicate_to clntinitco_conn close_conn
send_once-closed new connects junk sends dest table h =
    (λ fd. around_close new table fd h, λ fd. around_close new table fd h)
