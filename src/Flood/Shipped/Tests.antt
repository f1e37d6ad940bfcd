-- ===== src/Flood/Shipped/Tests.antt =====
-- A query in the grid for a file of the peer in the opposite corner (src/decentralized_peer.cpp).
use cs550_pa.Prelude.{ℕ, refl, arith, Bool, ◌==◌}
use cs550_pa.Flood.{begun, begin}
use cs550_pa.Flood.Shipped.{grid, topology_of}
use cs550_pa.Flood.Shipped.Located.{grid_shipped, Finishes, run-Finishes}

abbrev holds : ℕ → Bool
holds m = m == 16

run-Finishes_example : Finishes 2 grid holds 1 (begun (topology_of grid holds) 1)
run-Finishes_example =
    run-Finishes 2 grid grid_shipped holds 1 (begun (topology_of grid holds) 1) (omega arith)
      (omega arith) (omega arith) refl begin
