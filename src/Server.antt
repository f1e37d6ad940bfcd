-- ===== src/Server.antt =====
-- src/server.cpp: how a server chooses its address and port, and how it is started.
pub mod Ports
mod Tests
use cs550_pa.Prelude.{
  ℕ, zero, suc, ◌+◌, Bool, true, false, not, if◌then◌else◌, Option, none, some, ℤ, pos, negsuc,
  eq_ℤ,
}
use cs550_pa.Comms.{Conn, no_conn}

-- The loop over the ports, with whether `bind` succeeds on each, and how many ports are left.
unfoldable pub scan_ports : (ℕ → Bool) → ℕ → ℕ → Option ℕ
scan_ports binds zero port = none
scan_ports binds (suc left) port =
    let later = scan_ports binds left (port + 1) in if binds port then some port else later

-- `init_new_connection`, with what `get_ipv4_address` finds.
unfoldable pub init_new_connection : Option ℤ → (ℕ → Bool) → Bool → Conn
init_new_connection none binds use_fixed_port = no_conn
init_new_connection (some ip) binds use_fixed_port =
    if use_fixed_port
    then record { addr = ip; port = pos 8000; sock = negsuc 0 }
    else elim (scan_ports binds 1000 8000) [
      | none ↦ no_conn
      | some port ↦ record { addr = ip; port = pos port; sock = negsuc 0 }
    ]

-- The result of `start`, with whether the server's socket is bound, and listens.
unfoldable pub start : Conn → Bool → Bool → ℤ
start local_server binds listens =
    if eq_ℤ local_server.addr (negsuc 0)
    then negsuc 0
    else if not binds
    then negsuc 0
    else if not listens
    then negsuc 0
    else pos 0
