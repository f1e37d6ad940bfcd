-- ===== src/Benchmarks.antt =====
-- src/benchmarks.cpp: the files that the benchmarks ask for, and how they count failures. The clock and the
-- waits are left out.
pub mod Names
pub mod Counts
mod Tests
use cs550_pa.Prelude.{
  ℕ, zero, suc, ◌+◌, ◌-◌, ◌%◌, Bool, true, false, leb, ◌==◌, if◌then◌else◌, Option, none, some,
  List, [], ◌∷◌, ◌++◌, length, replicate, ℤ, pos, negsuc, eq_ℤ,
}
use cs550_pa.Comms.{Conn}
use cs550_pa.Messages.{◌>>=◌}
use cs550_pa.Text.{decimal}

-- `%06d` of a number that is not negative, in front of `rest`.
abbrev pub padded : ℕ → List ℕ → List ℕ
padded n rest = replicate (6 - length (decimal n [])) b'0' ++ decimal n rest

-- ".data"
abbrev pub extension : List ℕ
extension = b'.' ∷ b'd' ∷ b'a' ∷ b't' ∷ b'a' ∷ []

-- `create_file_name`: "vm%d_%s_%06d.data".
unfoldable pub create_file_name : ℕ → ℕ → List ℕ → List ℕ
create_file_name vm_id file_number file_size =
    b'v' ∷ b'm' ∷ decimal vm_id (b'_' ∷ (file_size ++ b'_' ∷ padded file_number extension))

-- The name of the next file, which some peer was given by scripts/gendata.sh, with what `rand` gives.
abbrev pub next_name : (ℕ → ℕ) → ℕ → List ℕ → ℕ → List ℕ
next_name rand num_peers file_size i = create_file_name (rand i % num_peers + 1) i file_size

module _ {ℓ} {S : Type ℓ} (rand : ℕ → ℕ) (num_peers : ℕ) (file_size : List ℕ) where
  -- The loop of `test_query` over the files from `i` on, with the failures so far. `none` is an exception.
  unfoldable pub test_query : (List ℕ → S → Option (Conn × S)) → ℕ → ℕ → ℕ → S → Option (ℕ × S)
  test_query search_for_file zero i failures s = some (failures, s)
  test_query search_for_file (suc left) i failures s = do
    (res, s') ← search_for_file (next_name rand num_peers file_size i) s
    test_query search_for_file left (i + 1)
        (if eq_ℤ res.addr (negsuc 0) then failures + 1 else failures) s'

  -- The loop of `test_transfer`.
  unfoldable pub test_transfer : (List ℕ → S → Option (ℤ × S)) → ℕ → ℕ → ℕ → S → Option (ℕ × S)
  test_transfer request_file zero i failures s = some (failures, s)
  test_transfer request_file (suc left) i failures s = do
    (res, s') ← request_file (next_name rand num_peers file_size i) s
    test_transfer request_file left (i + 1) (if eq_ℤ res (negsuc 0) then failures + 1 else failures)
        s'

-- What `run_benchmark` does: searches or transfers of so many files of a size, made by so many peers, or
-- it only waits.
pub data Work : Type 0 where
  queries transfers : ℕ → ℕ → List ℕ → Work
  waits unknown_benchmark : Work

-- "10K" and "100M"
abbrev pub ten_k : List ℕ
ten_k = b'1' ∷ b'0' ∷ b'K' ∷ []

abbrev pub hundred_m : List ℕ
hundred_m = b'1' ∷ b'0' ∷ b'0' ∷ b'M' ∷ []

unfoldable pub run_benchmark : ℕ → ℤ → Work
run_benchmark peer_id benchmark_id =
    if eq_ℤ benchmark_id (pos 1)
    then (if peer_id == 1 then queries 10000 16 ten_k else waits)
    else if eq_ℤ benchmark_id (pos 2)
    then (if leb peer_id 9 then queries 10000 16 ten_k else waits)
    else if eq_ℤ benchmark_id (pos 3)
    then (if leb peer_id 9 then transfers 10000 16 ten_k else waits)
    else if eq_ℤ benchmark_id (pos 4)
    then (if leb peer_id 9 then transfers 10 16 hundred_m else waits)
    else unknown_benchmark
