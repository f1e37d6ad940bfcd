-- ===== src/PeerCli/Ended.antt =====
-- The menu of src/peer_cli.cpp when there is nothing left to read.
use cs550_pa.Prelude.{
  ℕ, zero, suc, ◌≡◌, ◌≢◌, ◌⊎◌, refl, sym, ◌∙◌, Bool, true, false, Option-cases, inl, inr, List, [],
  ◌∷◌, ◌++◌,
}
use cs550_pa.Comms.{done}
use cs550_pa.Text.{stoi, skip_spaces, signed}
use cs550_pa.PeerCli.{
  Stdin, take_line, getline, IPeer, Line, bad_option, Item, directory_item, file_item, search_item,
  request_item, Menu, Choice, invalid, quit, chosen, read_choice, call_item, read_name, launch_cli,
}
use cs550_pa.PeerCli.Session.{launch_cli-invalid, launch_cli-threw, launch_cli-called}

abbrev ended : Stdin
ended = record { rest = []; eof = true }

getline-ended : (s : List ℕ) → getline s ended ≡ (s, ended)
unfolding getline
getline-ended s = refl

getline-empty : (s : List ℕ) → getline s (record { rest = []; eof = false }) ≡ ([], ended)
unfolding getline take_line
getline-empty s = refl

nothing-invalid : (menu : Menu) → read_choice menu [] ≡ invalid
unfolding read_choice stoi skip_spaces signed
nothing-invalid menu = refl

pub Choice-cases : (c : Choice) → (c ≡ invalid) ⊎ ((c ≡ quit) ⊎ ((item : Item) × (c ≡ chosen item)))
Choice-cases invalid = inl refl
Choice-cases quit = inr (inl refl)
Choice-cases (chosen item) = inr (inr (item, refl))

module _ {ℓ} {S : Type ℓ} (peer : IPeer S) (menu : Menu) where
  read_name-ended : (item : Item) → read_name peer item ended ≡ ([], ended)
  unfolding read_name
  read_name-ended directory_item = refl
  read_name-ended file_item = getline-ended []
  read_name-ended search_item = getline-ended []
  read_name-ended request_item = getline-ended []

  out_of_fuel :
      (input : List ℕ) (stdin : Stdin) (s : S) (out : List Line) (r : S × Stdin × List Line)
      → launch_cli peer menu zero input stdin s out ≢ done r
  unfolding launch_cli
  out_of_fuel input stdin s out r e = cc

  still_runs :
      (fuel : ℕ) (input : List ℕ) (s : S) (out : List Line)
      → read_choice menu input ≢ quit
      → (r : S × Stdin × List Line) → launch_cli peer menu fuel input ended s out ≢ done r
  still_runs zero input s out h r e = out_of_fuel input _ s out r e
  still_runs (suc fuel) input s out h r e = elim (Choice-cases (read_choice menu input)) [
    | inl q ↦ still_runs fuel input s (out ++ bad_option ∷ []) h r (
        sym
          (launch_cli-invalid peer menu fuel input input ended ended s out (getline-ended input) q)
        ∙ e)
    | inr (inl q) ↦ absurd (h q)
    | inr (inr (item, q)) ↦ elim (Option-cases (call_item peer item [] s)) [
      | inl k ↦
          let threw =
            launch_cli-threw peer menu fuel input input ended ended s out (getline-ended input) item
              [] ended q (read_name-ended item) k in
          cc (threw, e)
      | inr ((s', line), k) ↦ still_runs fuel input s' (out ++ line ∷ []) h r (
          sym (
            launch_cli-called peer menu fuel input input ended ended s out (getline-ended input)
              item [] ended s' line q (read_name-ended item) k)
          ∙ e)
    ]
  ]

  -- Once there is nothing left to read, the menu never returns, whatever fuel it is given, unless the
  -- end has been met in a line that was read for the menu and that says 9: it refuses an empty line, or
  -- makes the last choice, again and again.
  pub launch_cli-endless :
      (fuel : ℕ) (input : List ℕ) (eof : Bool) (s : S) (out : List Line)
      → (eof ≡ true → read_choice menu input ≢ quit)
      → ¬ (
          (r : S × Stdin × List Line) × (launch_cli peer menu fuel input
              (record { rest = []; eof = eof })
              s
              out
            ≡ done r))
  launch_cli-endless fuel input true s out h (r, e) = still_runs fuel input s out (h refl) r e
  launch_cli-endless zero input false s out h (r, e) = out_of_fuel input _ s out r e
  launch_cli-endless (suc fuel) input false s out h (r, e) =
      let bad = nothing-invalid menu in
      still_runs fuel [] s (out ++ bad_option ∷ []) (λ q. cc (bad, q)) r
        (sym (launch_cli-invalid peer menu fuel input [] _ ended s out (getline-empty input) bad)
          ∙ e)
