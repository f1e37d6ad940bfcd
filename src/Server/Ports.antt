-- ===== src/Server/Ports.antt =====
-- The choice of a port in src/server.cpp.
use cs550_pa.Prelude.{
  ℕ, zero, suc, ◌+◌, ◌≤◌, ◌<◌, ◌≡◌, refl, arith, Bool, true, false, Option, none, some,
  Option-cases, ℤ, pos, negsuc, Bool-cases, inl, inr,
}
use native.Mathlib.Decide.{ℕ_discrete}
use cs550_pa.Comms.{Conn, no_conn}
use cs550_pa.Server.{scan_ports, init_new_connection}

-- What a scan of the ports from `first` on, as far as `bound`, comes to.
pub data Scanned (binds : ℕ → Bool) (first bound : ℕ) : Option ℕ → Type 0 where
  all_taken : ((p : ℕ) → first ≤ p → p < bound → binds p ≡ false) → Scanned binds first bound none
  first_free :
      (port : ℕ)
      → first ≤ port
      → port < bound
      → binds port ≡ true
      → ((p : ℕ) → first ≤ p → p < port → binds p ≡ false)
      → Scanned binds first bound (some port)

before_suc :
    (binds : ℕ → Bool) (port bound : ℕ)
    → binds port ≡ false
    → ((p : ℕ) → port + 1 ≤ p → p < bound → binds p ≡ false)
    → (p : ℕ) → port ≤ p
    → p < bound
    → binds p ≡ false
before_suc binds port bound e rest p h k = elim (ℕ_discrete p port) [
  | yes q ↦ rw q e
  | no ne ↦ rest p (omega arith) k
]

Scanned-later :
    (binds : ℕ → Bool) (port bound : ℕ) {r : Option ℕ}
    → binds port ≡ false
    → Scanned binds (port + 1) bound r
    → Scanned binds port bound r
Scanned-later binds port bound taken (all_taken rest) =
    all_taken (before_suc binds port bound taken rest)
Scanned-later binds port bound taken (first_free q h k free rest) =
    first_free q (omega arith) k free (before_suc binds port q taken rest)

scan_ports-Scanned :
    (binds : ℕ → Bool) (left port bound : ℕ)
    → port + left ≡ bound
    → Scanned binds port bound (scan_ports binds left port)
unfolding scan_ports
scan_ports-Scanned binds zero port bound e = all_taken (λ p h k. absurd (omega arith))
scan_ports-Scanned binds (suc left) port bound e = elim (Bool-cases (binds port)) [
  | inl free ↦
      rw free (first_free port (omega arith) (omega arith) free (λ p h k. absurd (omega arith)))
  | inr taken ↦ rw taken (
      Scanned-later binds port bound taken
        (scan_ports-Scanned binds left (port + 1) bound (omega arith)))
]

-- The connection of a port that was found, and of none.
abbrev pub server_at : ℤ → Option ℕ → Conn
server_at ip none = no_conn
server_at ip (some port) = record { addr = ip; port = pos port; sock = negsuc 0 }

-- A server with no fixed port is given the first port from 8000 up to 8999 on which `bind` succeeds, and
-- {-1, -1, -1} if and only if it fails on all of them.
pub init_new_connection-Scanned :
    (ip : ℤ) (binds : ℕ → Bool)
    → (r : Option ℕ) × (init_new_connection (some ip) binds false ≡ server_at ip r)
      × Scanned binds 8000 9000 r
unfolding init_new_connection
init_new_connection-Scanned ip binds = (
  scan_ports binds 1000 8000,
  elim (Option-cases (scan_ports binds 1000 8000)) [
    | inl e ↦ rw (e, init_new_connection) refl
    | inr (p, e) ↦ rw (e, init_new_connection) refl
  ],
  scan_ports-Scanned binds 1000 8000 9000 (omega arith),
)
