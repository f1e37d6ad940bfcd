-- ===== src/PeerCli/Offered.antt =====
-- The two kinds of peers behind the menu of src/peer_cli.cpp, and what the menus offer of them.
use cs550_pa.Prelude.{
  ℕ, zero, suc, ◌≡◌, refl, sym, ◌∙◌, ◌||◌, ltb, Bool-cases, Option, none, some, Option-cases, inl,
  inr, List, [], ◌∷◌, ◌++◌, get_elem?, pos, eq_ℤ, is_negative, pos_part,
}
use cs550_pa.Text.{stoi}
use cs550_pa.DecentralizedPeer
use cs550_pa.PeerCli.{
  Stdin, getline, IPeer, Line, bad_option, Item, search_item, request_item, decentralized_menu,
  chosen, item_choice, read_choice, search_for_file, request_file, call_item, read_name, launch_cli,
}
use cs550_pa.PeerCli.Session.{
  launch_cli-invalid, launch_cli-quit, launch_cli-threw, launch_cli-called,
}
use cs550_pa.PeerCli.Ended.{Choice-cases}

abbrev result_of {ℓ κ} : {A : Type ℓ} {S : Type κ} → Option (S × A) → Option (A × S)
result_of none = none
result_of (some (s, a)) = some (a, s)

-- A peer of src/decentralized_peer.cpp: the methods that register throw.
abbrev pub decentralized_peer : DecentralizedPeer.World → IPeer DecentralizedPeer.Peer
decentralized_peer w = record {
  register_directory = λ peer. none;
  register_file = λ filename peer. none;
  search_for_file = λ filename peer. result_of (DecentralizedPeer.search_for_file w filename peer);
  request_file = λ filename peer. result_of (DecentralizedPeer.fetch w filename peer);
}

-- What the menu of a decentralized peer offers.
data Offered : Item → Type 0 where
  search_offered : Offered search_item
  request_offered : Offered request_item

item_choice-Offered :
    (k : ℕ) (item : Item)
    → item_choice (get_elem? decentralized_menu k) ≡ chosen item
    → Offered item
item_choice-Offered zero item e = cc
item_choice-Offered (suc zero) item e =
    let same : search_item ≡ item = cc e in rw (← same) search_offered
item_choice-Offered (suc (suc zero)) item e =
    let same : request_item ≡ item = cc e in rw (← same) request_offered
item_choice-Offered (suc (suc (suc zero))) item e = cc
item_choice-Offered (suc (suc (suc (suc zero)))) item e = cc
item_choice-Offered (suc (suc (suc (suc (suc zero))))) item e = cc
item_choice-Offered (suc (suc (suc (suc (suc (suc zero)))))) item e = cc
item_choice-Offered (suc (suc (suc (suc (suc (suc (suc zero))))))) item e = cc
item_choice-Offered (suc (suc (suc (suc (suc (suc (suc (suc zero)))))))) item e = cc
item_choice-Offered (suc (suc (suc (suc (suc (suc (suc (suc (suc zero))))))))) item e = cc
item_choice-Offered (suc (suc (suc (suc (suc (suc (suc (suc (suc (suc k)))))))))) item e = cc

read_choice-Offered :
    (line : List ℕ) (item : Item) → read_choice decentralized_menu line ≡ chosen item → Offered item
unfolding read_choice
read_choice-Offered line item e = elim (Option-cases (stoi line)) [
  | inl threw ↦ cc (rw (threw, read_choice) at e)
  | inr (c, number) ↦ elim (Bool-cases (eq_ℤ c (pos 9))) [
    | inl nine ↦ cc (rw (number, read_choice, nine) at e)
    | inr other ↦ elim (Bool-cases (is_negative c || ltb 9 (pos_part c))) [
      | inl outside ↦ cc (rw (number, read_choice, other, outside) at e)
      | inr inside ↦
          item_choice-Offered (pos_part c) item (rw (number, read_choice, other, inside) at e)
    ]
  ]
]

module _ {ℓ} {S : Type ℓ} (p q : IPeer S) (same_search : p.search_for_file ≡ q.search_for_file)
    (same_request : p.request_file ≡ q.request_file) where
  call_item-same :
      {item : Item} (name : List ℕ) (s : S)
      → Offered item
      → call_item p item name s ≡ call_item q item name s
  unfolding search_for_file request_file
  call_item-same name s search_offered = rw same_search refl
  call_item-same name s request_offered = rw same_request refl

  read_name-same :
      {item : Item} (stdin : Stdin) → Offered item → read_name p item stdin ≡ read_name q item stdin
  unfolding read_name
  read_name-same stdin search_offered = refl
  read_name-same stdin request_offered = refl

  -- The menu of a decentralized peer uses nothing of a peer but its search and its request: two peers that
  -- differ in the methods that register, which throw for a decentralized peer, go through any session in
  -- the same way.
  pub launch_cli-same :
      (fuel : ℕ) (input : List ℕ) (stdin : Stdin) (s : S) (out : List Line)
      → launch_cli p decentralized_menu fuel input stdin s out
        ≡ launch_cli q decentralized_menu fuel input stdin s out
  unfolding launch_cli
  launch_cli-same zero input stdin s out = refl
  launch_cli-same (suc fuel) input stdin s out =
      let line = (getline input stdin).0 in
      let stdin' = (getline input stdin).1 in
      elim (Choice-cases (read_choice decentralized_menu line)) [
        | inl c ↦
            launch_cli-invalid p decentralized_menu fuel input line stdin stdin' s out refl c
            ∙ launch_cli-same fuel line stdin' s (out ++ bad_option ∷ [])
            ∙ sym
                (launch_cli-invalid q decentralized_menu fuel input line stdin stdin' s out refl c)
        | inr (inl c) ↦
            launch_cli-quit p decentralized_menu fuel input line stdin stdin' s out refl c
            ∙ sym (launch_cli-quit q decentralized_menu fuel input line stdin stdin' s out refl c)
        | inr (inr (item, c)) ↦
            let offered = read_choice-Offered line item c in
            let name = (read_name q item stdin').0 in
            let stdin'' = (read_name q item stdin').1 in
            let reads = read_name-same stdin' offered in
            let calls = call_item-same name s offered in
            elim (Option-cases (call_item q item name s)) [
              | inl k ↦
                  launch_cli-threw p decentralized_menu fuel input line stdin stdin' s out refl item
                    name stdin'' c reads (calls ∙ k)
                  ∙ sym (
                      launch_cli-threw q decentralized_menu fuel input line stdin stdin' s out refl
                        item name stdin'' c refl k)
              | inr ((s', printed), k) ↦
                  launch_cli-called p decentralized_menu fuel input line stdin stdin' s out refl
                    item name stdin'' s' printed c reads (calls ∙ k)
                  ∙ launch_cli-same fuel line stdin'' s' (out ++ printed ∷ [])
                  ∙ sym (
                      launch_cli-called q decentralized_menu fuel input line stdin stdin' s out refl
                        item name stdin'' s' printed c refl k)
            ]
      ]
