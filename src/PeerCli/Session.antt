-- ===== src/PeerCli/Session.antt =====
-- What the menu of src/peer_cli.cpp makes of the lines that a user types.
use cs550_pa.Prelude.{
  ℕ, zero, suc, ◌<◌, ◌≡◌, refl, ◌∙◌, arith, false, Option, none, some, Option-cases, inl, inr, List,
  [], ◌∷◌, ◌++◌, length,
}
use cs550_pa.Comms.{Outcome, done, fault}
use cs550_pa.Text.{newline, stoi, skip_spaces, signed, unsigned, digits}
use cs550_pa.Text.Lines.{Lacks, none_left, not_here, All, all_nil, all_cons}
use cs550_pa.PeerCli.{
  Stdin, take_line, getline, IPeer, Line, bad_option, farewell, Item, directory_item, file_item,
  search_item, request_item, Menu, centralized_menu, invalid, quit, chosen, read_choice, call_item,
  read_name, launch_cli,
}

-- What a user means: a menu item, with a file name, or a line that is no option.
pub data Command : Type 0 where
  call : Item → List ℕ → Command
  mistype : List ℕ → Command

abbrev pub key : Item → ℕ
key directory_item = b'1'
key file_item = b'2'
key search_item = b'3'
key request_item = b'4'

-- The name that an item asks for, on its own line.
abbrev pub name_line : Item → List ℕ → List ℕ → List ℕ
name_line directory_item name rest = rest
name_line _ name rest = name ++ newline ∷ rest

-- The lines of a command, in front of `rest`.
abbrev pub typed : Command → List ℕ → List ℕ
typed (call item name) rest = key item ∷ newline ∷ name_line item name rest
typed (mistype line) rest = line ++ newline ∷ rest

unfoldable pub all_typed : List Command → List ℕ → List ℕ
all_typed [] rest = b'9' ∷ newline ∷ rest
all_typed (c ∷ cs) rest = typed c (all_typed cs rest)

abbrev pub IsTyped : Command → Type 0
IsTyped (call item name) = Lacks newline name
IsTyped (mistype line) = Lacks newline line × (read_choice centralized_menu line ≡ invalid)

module _ {ℓ} {S : Type ℓ} (peer : IPeer S) where
  -- What a command is to do.
  abbrev pub carry_out : Command → S → Option (S × Line)
  carry_out (call item name) s = call_item peer item name s
  carry_out (mistype line) s = some (s, bad_option)

  unfoldable pub carry_all : List Command → S → List Line → Option (S × List Line)
  carry_all [] s out = some (s, out ++ farewell ∷ [])
  carry_all (c ∷ cs) s out = elim (carry_out c s) [
    | none ↦ none
    | some (s', line) ↦ carry_all cs s' (out ++ line ∷ [])
  ]

  -- How the session ends, with what the user types after it.
  abbrev pub session_end : List ℕ → Option (S × List Line) → Outcome (S × Stdin × List Line)
  session_end rest none = fault
  session_end rest (some (s, out)) = done (s, record { rest = rest; eof = false }, out)

take_line-piece :
    {s : List ℕ} (rest : List ℕ)
    → Lacks newline s
    → take_line (s ++ newline ∷ rest) ≡ (s, rest, false)
unfolding take_line
take_line-piece rest none_left = refl
take_line-piece rest (not_here x xs e h) = rw (e, take_line-piece rest h) refl

abbrev pub reading : List ℕ → Stdin
reading rest = record { rest = rest; eof = false }

pub getline-piece :
    {s : List ℕ} (old rest : List ℕ)
    → Lacks newline s
    → getline old (reading (s ++ newline ∷ rest)) ≡ (s, reading rest)
unfolding getline
getline-piece old rest h = rw (take_line-piece rest h) refl

key-chosen : (item : Item) → read_choice centralized_menu (key item ∷ []) ≡ chosen item
unfolding read_choice stoi skip_spaces signed unsigned digits
key-chosen directory_item = refl
key-chosen file_item = refl
key-chosen search_item = refl
key-chosen request_item = refl

nine-quit : read_choice centralized_menu (b'9' ∷ []) ≡ quit
unfolding read_choice stoi skip_spaces signed unsigned digits
nine-quit = refl

key-Lacks : (item : Item) → Lacks newline (key item ∷ [])
key-Lacks directory_item = not_here _ _ refl none_left
key-Lacks file_item = not_here _ _ refl none_left
key-Lacks search_item = not_here _ _ refl none_left
key-Lacks request_item = not_here _ _ refl none_left

-- The first item gets no name.
asked_name : Item → List ℕ → List ℕ
asked_name directory_item name = []
asked_name _ name = name

module _ {ℓ} {S : Type ℓ} (peer : IPeer S) where
  read_name-line :
      (item : Item) (name rest : List ℕ)
      → Lacks newline name
      → read_name peer item (reading (name_line item name rest))
        ≡ (asked_name item name, reading rest)
  unfolding read_name asked_name
  read_name-line directory_item name rest h = refl
  read_name-line file_item name rest h = getline-piece [] rest h
  read_name-line search_item name rest h = getline-piece [] rest h
  read_name-line request_item name rest h = getline-piece [] rest h

  asked_name-same :
      (item : Item) (name : List ℕ) (s : S)
      → call_item peer item (asked_name item name) s ≡ call_item peer item name s
  unfolding asked_name
  asked_name-same directory_item name s = refl
  asked_name-same file_item name s = refl
  asked_name-same search_item name s = refl
  asked_name-same request_item name s = refl

  -- One turn of the loop.
  module _ (menu : Menu) (fuel : ℕ) (input line : List ℕ) (stdin stdin' : Stdin) (s : S)
      (out : List Line) (e : getline input stdin ≡ (line, stdin')) where
    pub launch_cli-invalid :
        read_choice menu line ≡ invalid
        → launch_cli peer menu (suc fuel) input stdin s out
          ≡ launch_cli peer menu fuel line stdin' s (out ++ bad_option ∷ [])
    unfolding launch_cli
    launch_cli-invalid c = rw (launch_cli, e, c, e) refl

    pub launch_cli-quit :
        read_choice menu line ≡ quit
        → launch_cli peer menu (suc fuel) input stdin s out ≡ done (s, stdin', out ++ farewell ∷ [])
    unfolding launch_cli
    launch_cli-quit c = rw (launch_cli, e, c, e) refl

    pub launch_cli-threw :
        (item : Item) (name : List ℕ) (stdin'' : Stdin)
        → read_choice menu line ≡ chosen item
        → read_name peer item stdin' ≡ (name, stdin'')
        → call_item peer item name s ≡ none
        → launch_cli peer menu (suc fuel) input stdin s out ≡ fault
    unfolding launch_cli
    launch_cli-threw item name stdin'' c n k = rw (launch_cli, e, c, e, n, k) refl

    pub launch_cli-called :
        (item : Item) (name : List ℕ) (stdin'' : Stdin) (s' : S) (printed : Line)
        → read_choice menu line ≡ chosen item
        → read_name peer item stdin' ≡ (name, stdin'')
        → call_item peer item name s ≡ some (s', printed)
        → launch_cli peer menu (suc fuel) input stdin s out
          ≡ launch_cli peer menu fuel line stdin'' s' (out ++ printed ∷ [])
    unfolding launch_cli
    launch_cli-called item name stdin'' s' printed c n k = rw (launch_cli, e, c, e, n, k, e, n) refl

  -- Typing commands and then 9 to the menu of a peer of the index server carries the commands out in
  -- their order, each with its line of output, and returns with what was typed behind left unread;
  -- an exception of the peer ends it at once. The names have no newline.
  pub launch_cli-carry_all :
      {cs : List Command}
      → All IsTyped cs
      → (fuel : ℕ) (input rest : List ℕ) (s : S) (out : List Line) → length cs < fuel
      → launch_cli peer centralized_menu fuel input (reading (all_typed cs rest)) s out
        ≡ session_end peer rest (carry_all peer cs s out)
  unfolding all_typed carry_all
  launch_cli-carry_all _ zero input rest s out h = absurd (omega arith)
  launch_cli-carry_all all_nil (suc fuel) input rest s out h =
      launch_cli-quit centralized_menu fuel input (b'9' ∷ []) (reading (all_typed [] rest))
        (reading rest) s out (getline-piece input rest (not_here b'9' [] refl none_left)) nine-quit
  launch_cli-carry_all (all_cons (mistype line) cs (lacks, bad) hs) (suc fuel) input rest s out h =
      launch_cli-invalid centralized_menu fuel input line _ _ s out
        (getline-piece input (all_typed cs rest) lacks) bad
      ∙ launch_cli-carry_all hs fuel line rest s (out ++ bad_option ∷ []) (omega arith)
  launch_cli-carry_all (all_cons (call item name) cs lacks hs) (suc fuel) input rest s out h =
      let after = all_typed cs rest in
      let e = getline-piece input (name_line item name after) (key-Lacks item) in
      let n = read_name-line item name after lacks in
      elim (Option-cases (call_item peer item name s)) [
        | inl k ↦
            launch_cli-threw centralized_menu fuel input (key item ∷ []) _ _ s out e item
              (asked_name item name) (reading after) (key-chosen item) n
              (asked_name-same item name s ∙ k)
            ∙ rw (k, carry_all) refl
        | inr ((s', line), k) ↦
            launch_cli-called centralized_menu fuel input (key item ∷ []) _ _ s out e item
              (asked_name item name) (reading after) s' line (key-chosen item) n
              (asked_name-same item name s ∙ k)
            ∙ launch_cli-carry_all hs fuel (key item ∷ []) rest s' (out ++ line ∷ []) (omega arith)
            ∙ rw (k, carry_all) refl
      ]
