-- ===== src/Benchmarks/Counts.antt =====
-- What the benchmarks of src/benchmarks.cpp ask for and count.
use cs550_pa.Prelude.{
  ℕ, zero, suc, ◌+◌, ◌≡◌, refl, sym, ◌∙◌, arith, Bool, true, false, if◌then◌else◌, Option, some,
  List, [], ◌∷◌, ◌++◌, append_assoc, append-nil, ℤ, negsuc, eq_ℤ,
}
use cs550_pa.Comms.{Conn}
use cs550_pa.Benchmarks.{next_name, test_query, test_transfer}

-- The names of so many files from number `i` on.
unfoldable pub names_from : (ℕ → ℕ) → ℕ → List ℕ → ℕ → ℕ → List (List ℕ)
names_from rand num_peers file_size zero i = []
names_from rand num_peers file_size (suc left) i =
    next_name rand num_peers file_size i ∷ names_from rand num_peers file_size left (i + 1)

unfoldable pub count_where : (List ℕ → Bool) → List (List ℕ) → ℕ
count_where test [] = 0
count_where test (name ∷ names) =
    let rest = count_where test names in if test name then rest + 1 else rest

-- A peer that finds the same for a name whenever it is asked, and records what it was asked for.
abbrev pub recorded {ℓ} :
    {R : Type ℓ} → (List ℕ → R) → List ℕ → List (List ℕ) → Option (R × List (List ℕ))
recorded answer name asked = some (answer name, asked ++ name ∷ [])

counted_one : (b : Bool) (f c : ℕ) → (if b then f + 1 else f) + c ≡ f + (if b then c + 1 else c)
counted_one true f c = omega arith
counted_one false f c = omega arith

-- The failures, and what the peer was asked for.
abbrev pub tally : ℕ → List (List ℕ) → Option (ℕ × List (List ℕ))
tally failures asked = some (failures, asked)

tally-eq : {a b : ℕ} {x y : List (List ℕ)} → a ≡ b → x ≡ y → tally a x ≡ tally b y
tally-eq e f = rw (e, f) refl

module _ (rand : ℕ → ℕ) (num_peers : ℕ) (file_size : List ℕ) where
  abbrev names : ℕ → ℕ → List (List ℕ)
  names left i = names_from rand num_peers file_size left i

  query_from :
      (find : List ℕ → Conn) (left i failures : ℕ) (asked : List (List ℕ))
      → test_query rand num_peers file_size (recorded find) left i failures asked
        ≡ tally
            (failures + count_where (λ name. eq_ℤ (find name).addr (negsuc 0)) (names left i))
            (asked ++ names left i)
  unfolding test_query names_from count_where
  query_from find zero i failures asked = tally-eq (omega arith) (sym (append-nil asked))
  query_from find (suc left) i failures asked =
      let name = next_name rand num_peers file_size i in
      let test = λ (n : List ℕ). eq_ℤ (find n).addr (negsuc 0) in
      query_from find left (i + 1) (if test name then failures + 1 else failures)
        (asked ++ name ∷ [])
      ∙ tally-eq (counted_one (test name) failures (count_where test (names left (i + 1))))
          (append_assoc asked (name ∷ []) (names left (i + 1)))

  transfer_from :
      (fetch : List ℕ → ℤ) (left i failures : ℕ) (asked : List (List ℕ))
      → test_transfer rand num_peers file_size (recorded fetch) left i failures asked
        ≡ tally
            (failures + count_where (λ name. eq_ℤ (fetch name) (negsuc 0)) (names left i))
            (asked ++ names left i)
  unfolding test_transfer names_from count_where
  transfer_from fetch zero i failures asked = tally-eq (omega arith) (sym (append-nil asked))
  transfer_from fetch (suc left) i failures asked =
      let name = next_name rand num_peers file_size i in
      let test = λ (n : List ℕ). eq_ℤ (fetch n) (negsuc 0) in
      transfer_from fetch left (i + 1) (if test name then failures + 1 else failures)
        (asked ++ name ∷ [])
      ∙ tally-eq (counted_one (test name) failures (count_where test (names left (i + 1))))
          (append_assoc asked (name ∷ []) (names left (i + 1)))

  -- On a peer that answers the same for a name whenever it is asked, `test_query` and `test_transfer` ask
  -- once for each of the files numbered from 0 on, in that order and of the peers that `rand` gives, and
  -- count as failures the names for which the address, or the status, is -1.
  pub test_query-counts :
      (find : List ℕ → Conn) (fetch : List ℕ → ℤ) (num_files : ℕ)
      → (test_query rand num_peers file_size (recorded find) num_files 0 0 []
          ≡ tally
              (count_where (λ name. eq_ℤ (find name).addr (negsuc 0)) (names num_files 0))
              (names num_files 0))
        × (test_transfer rand num_peers file_size (recorded fetch) num_files 0 0 []
            ≡ tally
                (count_where (λ name. eq_ℤ (fetch name) (negsuc 0)) (names num_files 0))
                (names num_files 0))
  test_query-counts find fetch num_files = (
    query_from find num_files 0 0 [] ∙ tally-eq (omega arith) refl,
    transfer_from fetch num_files 0 0 [] ∙ tally-eq (omega arith) refl,
  )
