-- ===== src/DecentralizedPeer/Config/Read.antt =====
-- The two files from which a peer of src/decentralized_peer.cpp reads its neighbours, as they are printed.
use cs550_pa.Prelude.{
  ℕ, ◌^◌, ◌<◌, ◌≡◌, refl, sym, ap, ◌∙◌, Bool, true, false, ◌==◌, if◌then◌else◌, some, List, [], ◌∷◌,
  ◌++◌, map, ℤ, pos, Bool-cases, inl, inr,
}
use cs550_pa.Comms.{Conn}
use cs550_pa.Text.{newline, comma, colon, split, before, behind, after, stoi, decimal, is_digit}
use cs550_pa.Text.Numbers.{at_end, at_byte, stoi-decimal}
use cs550_pa.Text.Lines.{
  Lacks, none_left, not_here, All, all_nil, all_cons, print_lines, print_numbers, split-print_lines,
  split-print_numbers, before-append, behind-piece, before-piece, after-piece, decimal_on-append,
  decimal_on-Lacks, print_numbers-Lacks,
}
use cs550_pa.DecentralizedPeer.Config.{
  Inet, read_ids, read_adjacency, has_id, neighbor_at, read_host, read_hosts, init_neighbors,
}

-- A row of a topology: a peer and its neighbours. A host: a peer and its address.
abbrev pub Row : Type 0
Row = ℕ × List ℕ

abbrev pub Host : Type 0
Host = ℕ × List ℕ

abbrev pub print_row : Row → List ℕ
print_row (id, ns) = decimal id (colon ∷ print_numbers comma ns)

abbrev pub print_host : Host → List ℕ
print_host (id, ip) = decimal id (comma ∷ ip)

abbrev pub IsId : ℕ → Type 0
IsId n = n < 2 ^ 31

abbrev pub IsRow : Row → Type 0
IsRow (id, ns) = IsId id × All IsId ns

abbrev pub IsHost : Host → Type 0
IsHost (id, ip) = IsId id × Lacks newline ip

-- The neighbours of a peer in a topology.
unfoldable pub neighbor_ids : ℕ → List Row → List ℕ
neighbor_ids peer [] = []
neighbor_ids peer ((id, ns) ∷ rows) =
    if id == peer then ns ++ neighbor_ids peer rows else neighbor_ids peer rows

unfoldable pub listed : ℕ → List ℕ → Bool
listed id [] = false
listed id (n ∷ ns) = if n == id then true else listed id ns

-- The connections of the hosts that are listed.
unfoldable pub linked : Inet → List ℕ → List Host → List Conn
linked inet ids [] = []
linked inet ids ((id, ip) ∷ hosts) =
    if listed id ids then neighbor_at inet ip ∷ linked inet ids hosts else linked inet ids hosts

-- What stands in front of a byte that is no digit.
front : (n c : ℕ) (rest : List ℕ) → decimal n (c ∷ rest) ≡ decimal n [] ++ c ∷ rest
front n c rest = decimal_on-append 10 n [] (c ∷ rest)

read_ids-map :
    {ns : List ℕ} → All IsId ns → read_ids (map (λ n. decimal n []) ns) ≡ some (map pos ns)
unfolding read_ids
read_ids-map all_nil = refl
read_ids-map (all_cons n ns h hs) = rw (stoi-decimal n [] h at_end, read_ids-map hs) refl

decimal-Lacks : (n c : ℕ) → is_digit c ≡ false → Lacks c (decimal n [])
decimal-Lacks n c e = decimal_on-Lacks 10 n c [] e none_left

-- The number in front of a byte that is no digit and no comma.
row_id : (id : ℕ) (ns : List ℕ) → IsId id → stoi (before comma (print_row (id, ns))) ≡ some (pos id)
unfolding before
row_id id ns h =
    ap (λ s. stoi (before comma s)) (front id colon (print_numbers comma ns))
    ∙ ap stoi (before-append (colon ∷ print_numbers comma ns) (decimal-Lacks id comma refl))
    ∙ ap stoi (sym (front id colon (before comma (print_numbers comma ns))))
    ∙ stoi-decimal id (colon ∷ before comma (print_numbers comma ns)) h (at_byte colon _ refl)

row_ids :
    (id : ℕ) (ns : List ℕ)
    → All IsId ns
    → read_ids (split comma (after colon (print_row (id, ns)))) ≡ some (map pos ns)
row_ids id ns h =
    ap (λ s. read_ids (split comma (after colon s))) (front id colon (print_numbers comma ns))
    ∙ ap (λ s. read_ids (split comma s))
        (after-piece (print_numbers comma ns) (decimal-Lacks id colon refl))
    ∙ ap read_ids (split-print_numbers comma ns refl)
    ∙ read_ids-map h

map-append : (f : ℕ → ℤ) (xs ys : List ℕ) → map f (xs ++ ys) ≡ map f xs ++ map f ys
map-append f [] ys = refl
map-append f (x ∷ xs) ys = ap (λ zs. f x ∷ zs) (map-append f xs ys)

read_adjacency-neighbor_ids :
    (peer : ℕ) {rows : List Row}
    → All IsRow rows
    → read_adjacency (pos peer) (map print_row rows) ≡ some (map pos (neighbor_ids peer rows))
unfolding read_adjacency neighbor_ids
read_adjacency-neighbor_ids peer all_nil = refl
read_adjacency-neighbor_ids peer (all_cons (id, ns) rows (h, k) hs) =
    elim (Bool-cases (id == peer)) [
      | inl same ↦
          rw
            (
              row_id id ns h,
              same,
              row_ids id ns k,
              read_adjacency-neighbor_ids peer hs,
              map-append pos ns (neighbor_ids peer rows),
            )
            refl
      | inr other ↦ rw (row_id id ns h, other, read_adjacency-neighbor_ids peer hs) refl
    ]

has_id-listed : (id : ℕ) (ns : List ℕ) → has_id (pos id) (map pos ns) ≡ listed id ns
unfolding has_id listed
has_id-listed id [] = refl
has_id-listed id (n ∷ ns) = rw (has_id-listed id ns) refl

read_host-neighbor :
    (inet : Inet) (ids : List ℕ) (id : ℕ) (ip : List ℕ)
    → IsId id
    → read_host inet (map pos ids) (print_host (id, ip))
      ≡ some (if listed id ids then neighbor_at inet ip ∷ [] else [])
unfolding read_host
read_host-neighbor inet ids id ip h =
    let ahead = front id comma ip in
    let lacks = decimal-Lacks id comma refl in
    let number : stoi (before comma (print_host (id, ip))) ≡ some (pos id) =
      ap (λ s. stoi (before comma s)) ahead
      ∙ ap stoi (before-piece ip lacks)
      ∙ stoi-decimal id [] h at_end in
    let address : behind comma (print_host (id, ip)) ≡ some ip =
      ap (behind comma) ahead ∙ behind-piece ip lacks in
    rw (read_host, address, number, has_id-listed id ids) refl

read_hosts-linked :
    (inet : Inet) (ids : List ℕ) {hosts : List Host}
    → All IsHost hosts
    → read_hosts inet (map pos ids) (map print_host hosts) ≡ some (linked inet ids hosts)
unfolding read_hosts linked
read_hosts-linked inet ids all_nil = refl
read_hosts-linked inet ids (all_cons (id, ip) hosts (h, k) hs) = elim (Bool-cases (listed id ids)) [
  | inl is ↦ rw (read_host-neighbor inet ids id ip h, is, read_hosts-linked inet ids hs) refl
  | inr isnt ↦ rw (read_host-neighbor inet ids id ip h, isnt, read_hosts-linked inet ids hs) refl
]

print_row-Lacks : (row : Row) → Lacks newline (print_row row)
print_row-Lacks (id, ns) =
    decimal_on-Lacks 10 id newline _ refl
      (not_here colon _ refl (print_numbers-Lacks comma newline ns refl refl))

rows_lack : {rows : List Row} → All IsRow rows → All (Lacks newline) (map print_row rows)
rows_lack all_nil = all_nil
rows_lack (all_cons row rows h hs) = all_cons (print_row row) _ (print_row-Lacks row) (rows_lack hs)

hosts_lack : {hosts : List Host} → All IsHost hosts → All (Lacks newline) (map print_host hosts)
hosts_lack all_nil = all_nil
hosts_lack (all_cons (id, ip) hosts (h, k) hs) =
    all_cons (print_host (id, ip)) _
      (decimal_on-Lacks 10 id newline _ refl (not_here comma ip refl k)) (hosts_lack hs)

-- `init_neighbors` on two such files.
pub init_neighbors-linked :
    (inet : Inet) (peer : ℕ) (rows : List Row) (hosts : List Host)
    → All IsRow rows
    → All IsHost hosts
    → init_neighbors inet
        (pos peer)
        (print_lines (map print_row rows))
        (print_lines (map print_host hosts))
      ≡ some (linked inet (neighbor_ids peer rows) hosts)
unfolding init_neighbors
init_neighbors-linked inet peer rows hosts h k =
    rw
      (
        split-print_lines (rows_lack h),
        split-print_lines (hosts_lack k),
        read_adjacency-neighbor_ids peer h,
      )
      (read_hosts-linked inet (neighbor_ids peer rows) k)
