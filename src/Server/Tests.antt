-- ===== src/Server/Tests.antt =====
-- Runs of the model of src/server.cpp.
use cs550_pa.Prelude.{ℕ, ◌≡◌, Bool, false, leb, Option, some, pos}
use cs550_pa.Server.{init_new_connection}
use cs550_pa.Server.Ports.{Scanned, server_at, init_new_connection-Scanned}

-- The first two ports are taken.
abbrev binds : ℕ → Bool
binds port = leb 8002 port

init_new_connection-Scanned_example :
    (r : Option ℕ) × (init_new_connection (some (pos 16777343)) binds false
      ≡ server_at (pos 16777343) r)
    × Scanned binds 8000 9000 r
init_new_connection-Scanned_example = init_new_connection-Scanned (pos 16777343) binds
