-- ===== src/Sockets/Tests.antt =====
-- Runs of the models of src/comms.c and src/server.cpp.
use cs550_pa.Prelude.{ℕ, ◌≡◌, arith, false, ◌==◌, ◌||◌, some, List, [], ◌∷◌, pos}
use cs550_pa.Comms.{Conn, no_conn}
use cs550_pa.Sockets.{
  Table, Interface, no_address, ipv4, loopback, Accepted, accept, send_once, replicate_to,
}
use cs550_pa.Sockets.Loop.{Serving}
use cs550_pa.Sockets.Leaks.{send_once-closed}

abbrev interfaces : List Interface
interfaces =
    record { ifa_name = loopback; ifa_addr = ipv4 (pos 16777343) }
    ∷ record { ifa_name = b'e' ∷ []; ifa_addr = no_address }
    ∷ record { ifa_name = b'e' ∷ []; ifa_addr = ipv4 (pos 10) }
    ∷ []

-- The standard streams are open.
abbrev streams : Table
streams = λ fd. fd == 0 || (fd == 1 || fd == 2)

abbrev visitor : Accepted
visitor = some (3, pos 10, pos 8000)

abbrev client : Conn
client = record { addr = pos 10; port = pos 8000; sock = pos 3 }

abbrev with_visitor : Serving
with_visitor = record { table = (accept visitor streams).1; clients = client ∷ [] }

send_once-closed_example :
    ((fd : ℕ)
      → (send_once (some 3) (λ a p. false) no_conn (λ c. false) client streams).1 fd ≡ streams fd)
    × ((fd : ℕ) → replicate_to (some 3) (λ a p. false) no_conn client streams fd ≡ streams fd)
send_once-closed_example =
    send_once-closed (some 3) (λ a p. false) no_conn (λ c. false) client streams (λ n e. three n e)
  where
    three : (n : ℕ) → some 3 ≡ some n → streams n ≡ false
    three n e = let q : 3 ≡ n = cc e in ground (arith, q)
