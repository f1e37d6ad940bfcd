-- ===== src/PeerCli/Arguments.antt =====
-- The arguments of a peer of src/peer_cli.cpp.
use cs550_pa.Prelude.{ℕ, ◌^◌, ◌<◌, ◌≡◌, refl, arith, List, [], ◌∷◌, ◌++◌, get_elem?, pos, int_bits}
use cs550_pa.Comms.{Conn}
use cs550_pa.Text.{colon, decimal}
use cs550_pa.Text.Numbers.{at_end, stoi-decimal}
use cs550_pa.Text.Lines.{Lacks, behind-piece, before-piece}
use cs550_pa.DecentralizedPeer.Config.{Inet}
use cs550_pa.PeerCli.{parsed, parse_route, parse_conn_arg, id_of, launch_with, centralized_main}

-- The connection that an address and a port stand for.
abbrev pub server_at : Inet → List ℕ → ℕ → Conn
server_at inet ip port = record { addr = inet.inet_addr ip; port = pos port; sock = inet.junk }

parse_route-parsed :
    (inet : Inet) {ip : List ℕ} (port : ℕ)
    → Lacks colon ip
    → port < 2 ^ 31
    → parse_route inet (ip ++ colon ∷ decimal port []) ≡ parsed (server_at inet ip port)
unfolding parse_route
parse_route-parsed inet port h k =
    rw
      (
        behind-piece (decimal port []) h,
        parse_route,
        stoi-decimal port [] k at_end,
        before-piece (decimal port []) h,
      )
      refl

id_of-decimal : (id : ℕ) → id < 2 ^ 8 → id_of (decimal id []) ≡ id
unfolding id_of int_bits
id_of-decimal id h = rw (stoi-decimal id [] (omega arith) at_end, id_of) (omega arith)

-- A peer of the index server that is given its number, below 256, and `ip:port` goes on with that number
-- and the connection of the index server at that port, and at the address that `inet_addr` makes of what
-- is in front of the colon: with the menu, or with a benchmark where there is one more argument.
pub centralized_main-launch_with :
    (inet : Inet) (program ip : List ℕ) (id port : ℕ) (more : List (List ℕ))
    → id < 2 ^ 8
    → Lacks colon ip
    → port < 2 ^ 31
    → centralized_main inet (program ∷ decimal id [] ∷ (ip ++ colon ∷ decimal port []) ∷ more)
      ≡ launch_with id (server_at inet ip port) (get_elem? more 0)
unfolding centralized_main parse_conn_arg
centralized_main-launch_with inet program ip id port more b h k =
    rw (parse_route-parsed inet port h k, centralized_main, id_of-decimal id b) refl
