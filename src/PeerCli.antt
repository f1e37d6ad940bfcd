-- ===== src/PeerCli.antt =====
-- src/peer_cli.cpp: the arguments of a peer, and its menu.
pub mod Arguments
pub mod Session
pub mod Ended
pub mod Offered
mod Tests
use cs550_pa.Prelude.{
  ℕ, zero, suc, ◌+◌, ◌%◌, ◌^◌, Bool, true, false, ◌||◌, ◌==◌, ltb, if◌then◌else◌, Option, none,
  some, List, [], ◌∷◌, ◌++◌, length, get_elem?, ℤ, pos, negsuc, eq_ℤ, is_negative, pos_part,
  int_bits,
}
use cs550_pa.Comms.{Conn, Outcome, done, failed, fault, running}
use cs550_pa.Text.{newline, colon, before, behind, stoi}
use cs550_pa.DecentralizedPeer.Config.{Inet}

-- `std::cin`: what is still to be read, and whether a read has come to the end.
pub record Stdin : Type 0 where
  pub rest : List ℕ
  pub eof : Bool

-- A line, what is behind it, and whether the text ended before the line did.
unfoldable pub take_line : List ℕ → List ℕ × List ℕ × Bool
take_line [] = ([], [], true)
take_line (c ∷ cs) =
    let (line, rest, ended) = take_line cs in
    if c == newline then ([], cs, false) else (c ∷ line, rest, ended)

-- `getline(std::cin, s)`: the new value of the string, which stays as it is once the end has been met.
unfoldable pub getline : List ℕ → Stdin → List ℕ × Stdin
getline s stdin =
    if stdin.eof
    then (s, stdin)
    else (let (line, rest, ended) = take_line stdin.rest in
        (line, record { rest = rest; eof = ended }))

-- The methods of a peer that the menu calls, on the state of the peer. `none` is an exception.
pub record IPeer {ℓ} (S : Type ℓ) : Type ℓ where
  pub register_directory : S → Option (ℤ × S)
  pub register_file : List ℕ → S → Option (ℤ × S)
  pub search_for_file : List ℕ → S → Option (Conn × S)
  pub request_file : List ℕ → S → Option (ℤ × S)

-- What is printed, but for the prompts.
pub data Line : Type 0 where
  directory_failed file_failed file_registered download_failed bad_option farewell : Line
  directory_registered : ℤ → Line
  no_such_file downloaded : List ℕ → Line
  found_at : Conn → Line

pub data Item : Type 0 where
  directory_item file_item search_item request_item : Item

-- `menu_items`, with `none` for a null pointer.
abbrev pub Menu : Type 0
Menu = List (Option Item)

abbrev pub centralized_menu : Menu
centralized_menu =
    none
    ∷ some directory_item
    ∷ some file_item
    ∷ some search_item
    ∷ some request_item
    ∷ none
    ∷ none
    ∷ none
    ∷ none
    ∷ none
    ∷ []

abbrev pub decentralized_menu : Menu
decentralized_menu =
    none
    ∷ some search_item
    ∷ some request_item
    ∷ none
    ∷ none
    ∷ none
    ∷ none
    ∷ none
    ∷ none
    ∷ none
    ∷ []

pub data Choice : Type 0 where
  invalid quit : Choice
  chosen : Item → Choice

abbrev pub item_choice : Option (Option Item) → Choice
item_choice (some (some item)) = chosen item
item_choice _ = invalid

-- What the menu makes of a line.
unfoldable pub read_choice : Menu → List ℕ → Choice
read_choice menu input = elim (stoi input) [
  | none ↦ invalid
  | some menu_choice ↦
      if eq_ℤ menu_choice (pos 9)
      then quit
      else if is_negative menu_choice || ltb 9 (pos_part menu_choice)
      then invalid
      else item_choice (get_elem? menu (pos_part menu_choice))
]

module _ {ℓ} {S : Type ℓ} (peer : IPeer S) where
  unfoldable pub register_directory : S → Option (S × Line)
  register_directory s = elim (peer.register_directory s) [
    | none ↦ none
    | some (files_registered, s') ↦
        if is_negative files_registered
        then some (s', directory_failed)
        else some (s', directory_registered files_registered)
  ]

  unfoldable pub register_file : List ℕ → S → Option (S × Line)
  register_file filename s = elim (peer.register_file filename s) [
    | none ↦ none
    | some (status, s') ↦
        if is_negative status then some (s', file_failed) else some (s', file_registered)
  ]

  unfoldable pub search_for_file : List ℕ → S → Option (S × Line)
  search_for_file filename s = elim (peer.search_for_file filename s) [
    | none ↦ none
    | some (result, s') ↦
        if eq_ℤ result.addr (negsuc 0)
        then some (s', no_such_file filename)
        else some (s', found_at result)
  ]

  unfoldable pub request_file : List ℕ → S → Option (S × Line)
  request_file filename s = elim (peer.request_file filename s) [
    | none ↦ none
    | some (status, s') ↦
        if is_negative status then some (s', download_failed) else some (s', downloaded filename)
  ]

  -- A menu item, with the file name that it has read.
  abbrev pub call_item : Item → List ℕ → S → Option (S × Line)
  call_item directory_item filename s = register_directory s
  call_item file_item filename s = register_file filename s
  call_item search_item filename s = search_for_file filename s
  call_item request_item filename s = request_file filename s

  -- The file name, which all items but the first read.
  unfoldable pub read_name : Item → Stdin → List ℕ × Stdin
  read_name directory_item stdin = ([], stdin)
  read_name file_item stdin = getline [] stdin
  read_name search_item stdin = getline [] stdin
  read_name request_item stdin = getline [] stdin

  -- The loop of `launch_cli`, with the line that was read last, and what has been printed so far.
  unfoldable pub launch_cli :
      Menu → ℕ → List ℕ → Stdin → S → List Line → Outcome (S × Stdin × List Line)
  launch_cli menu zero input stdin s out = running
  launch_cli menu (suc fuel) input stdin s out =
      let (input', stdin') = getline input stdin in
      elim (read_choice menu input') [
        | invalid ↦ launch_cli menu fuel input' stdin' s (out ++ bad_option ∷ [])
        | quit ↦ done (s, stdin', out ++ farewell ∷ [])
        | chosen item ↦
            let (filename, stdin'') = read_name item stdin' in
            elim (call_item item filename s) [
              | none ↦ fault
              | some (s', line) ↦ launch_cli menu fuel input' stdin'' s' (out ++ line ∷ [])
            ]
      ]

-- What `parse_conn_arg` comes to: -1, an exception of `stoi`, or a connection.
pub data ConnArg : Type 0 where
  refused threw : ConnArg
  parsed : Conn → ConnArg

unfoldable pub parse_route : Inet → List ℕ → ConnArg
parse_route inet full_route = elim (behind colon full_route) [
  | none ↦ refused
  | some port ↦ elim (stoi port) [
    | none ↦ threw
    | some number ↦ parsed (record {
      addr = inet.inet_addr (before colon full_route);
      port = number;
      sock = inet.junk;
    })
  ]
]

-- `argc` is the length of `argv`.
unfoldable pub parse_conn_arg : Inet → List (List ℕ) → ℕ → ConnArg
parse_conn_arg inet argv idx = elim (get_elem? argv idx) [
  | none ↦ refused
  | some full_route ↦ parse_route inet full_route
]

-- `atoi`, which is not defined out of the range of an `int`, as an `unsigned char`.
unfoldable pub id_of : List ℕ → ℕ
id_of arg = elim (stoi arg) [ none ↦ 0 | some i ↦ int_bits i % 2 ^ 8 ]

-- What `main` goes on to: it returns -1, an exception ends it, or it creates a peer and launches
-- the menu or, with the last of four arguments, a benchmark.
pub data Launch {ℓ} (C : Type ℓ) : Type ℓ where
  usage crash : Launch C
  menu : ℕ → C → Launch C
  benchmark : ℕ → C → List ℕ → Launch C

abbrev pub launch_with {ℓ} : {C : Type ℓ} → ℕ → C → Option (List ℕ) → Launch C
launch_with id config none = menu id config
launch_with id config (some benchmark_id) = benchmark id config benchmark_id

-- `main` of a peer of the index server.
unfoldable pub centralized_main : Inet → List (List ℕ) → Launch Conn
centralized_main inet argv = elim (get_elem? argv 1) [
  | none ↦ usage
  | some vm_id ↦ elim (parse_conn_arg inet argv 2) [
    | refused ↦ usage
    | threw ↦ crash
    | parsed index_server ↦ launch_with (id_of vm_id) index_server (get_elem? argv 3)
  ]
]

-- `main` of a peer with neighbours, whose second argument is the path of the topology.
unfoldable pub decentralized_main : List (List ℕ) → Launch (List ℕ)
decentralized_main (program ∷ vm_id ∷ topology ∷ rest) =
    launch_with (id_of vm_id) topology (get_elem? rest 0)
decentralized_main _ = usage
