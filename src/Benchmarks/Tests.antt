-- ===== src/Benchmarks/Tests.antt =====
-- A name that src/benchmarks.cpp makes.
use cs550_pa.Prelude.{◌≡◌, refl, ◌∷◌}
use cs550_pa.Text.{decimal_on}
use cs550_pa.Benchmarks.{create_file_name, extension, ten_k}

-- "vm1_10K_000042.data"
vm1_42 :
    create_file_name 1 42 ten_k
    ≡ b'v' ∷ b'm' ∷ b'1' ∷ b'_' ∷ b'1' ∷ b'0' ∷ b'K' ∷ b'_' ∷ b'0' ∷ b'0' ∷ b'0' ∷ b'0' ∷ b'4'
      ∷ b'2' ∷ extension
unfolding create_file_name decimal_on
vm1_42 = refl
