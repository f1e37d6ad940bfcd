-- ===== src/PeerCli/Tests.antt =====
-- Runs of the model of src/peer_cli.cpp.
use cs550_pa.Prelude.{
  none, ℕ, ◌+◌, ◌≡◌, refl, arith, false, some, List, [], ◌∷◌, ◌++◌, get_elem?, pos, negsuc,
}
use cs550_pa.Comms.{no_conn, done, dup_request}
use cs550_pa.Text.{colon, decimal, stoi, skip_spaces, signed, unsigned}
use cs550_pa.Text.Lines.{none_left, not_here, All, all_nil, all_cons}
use cs550_pa.DecentralizedPeer.Config.{Inet}
use cs550_pa.PeerCli.{
  Stdin, IPeer, Line, directory_item, file_item, search_item, centralized_menu, decentralized_menu,
  invalid, read_choice, launch_cli, launch_with, centralized_main,
}
use cs550_pa.PeerCli.Arguments.{server_at, centralized_main-launch_with}
use cs550_pa.PeerCli.Session.{
  Command, call, mistype, all_typed, IsTyped, carry_all, session_end, reading, launch_cli-carry_all,
}
use cs550_pa.DecentralizedPeer
use cs550_pa.PeerCli.Offered.{decentralized_peer, launch_cli-same}
use cs550_pa.PeerCli.Ended.{launch_cli-endless}

-- A peer that counts the files that it registers, and finds no other.
abbrev counter : IPeer ℕ
counter = record {
  register_directory = λ s. some (pos 2, s + 2);
  register_file = λ name s. some (pos 0, s + 1);
  search_for_file = λ name s. some (no_conn, s);
  request_file = λ name s. some (negsuc 0, s);
}

abbrev session : List Command
session =
    mistype (b'x' ∷ [])
    ∷ call directory_item []
    ∷ call file_item (b'f' ∷ [])
    ∷ call search_item (b'g' ∷ [])
    ∷ []

x-invalid : read_choice centralized_menu (b'x' ∷ []) ≡ invalid
unfolding read_choice stoi skip_spaces signed unsigned
x-invalid = refl

session-IsTyped : All IsTyped session
session-IsTyped =
    all_cons _ _ (not_here _ _ refl none_left, x-invalid)
      (all_cons _ _ none_left (
        all_cons _ _ (not_here _ _ refl none_left)
          (all_cons _ _ (not_here _ _ refl none_left) all_nil)))

launch_cli-carry_all_example :
    launch_cli counter centralized_menu 5 [] (reading (all_typed session (b'?' ∷ []))) 0 []
    ≡ session_end counter (b'?' ∷ []) (carry_all counter session 0 [])
launch_cli-carry_all_example =
    launch_cli-carry_all counter session-IsTyped 5 [] (b'?' ∷ []) 0 [] (omega arith)

launch_cli-endless_example : ¬ (
    (r : ℕ × Stdin × List Line) × (launch_cli counter decentralized_menu 1000 []
        (record { rest = []; eof = false })
        0
        []
      ≡ done r))
launch_cli-endless_example =
    launch_cli-endless counter decentralized_menu 1000 [] false 0 [] (λ e. cc)

abbrev inet : Inet
inet = record { inet_addr = λ ip. pos 16777343; junk = pos 0 }

centralized_main-launch_with_example :
    centralized_main inet ([] ∷ decimal 3 [] ∷ ((b'1' ∷ []) ++ colon ∷ decimal 8000 []) ∷ [])
    ≡ launch_with 3 (server_at inet (b'1' ∷ []) 8000) (get_elem? {A = List ℕ} [] 0)
centralized_main-launch_with_example =
    centralized_main-launch_with inet [] (b'1' ∷ []) 3 8000 [] (omega arith)
      (not_here _ _ refl none_left) (omega arith)

abbrev world : DecentralizedPeer.World
world = record {
  malloc = λ n. none;
  ask = λ c m. DecentralizedPeer.bare dup_request;
  files = λ path. none;
  finish = λ ms. [];
  junk = no_conn;
}

-- A decentralized peer whose methods that register do not throw.
abbrev registering : IPeer DecentralizedPeer.Peer
registering = record (decentralized_peer world) {
  register_directory = λ (s : DecentralizedPeer.Peer). some (pos 0, s);
  register_file = λ (name : List ℕ) (s : DecentralizedPeer.Peer). some (pos 0, s);
}

abbrev alone : DecentralizedPeer.Peer
alone = record {
  peer_id = 1;
  message_count = 0;
  file_set = (b'f' ∷ []) ∷ [];
  received_queries = [];
  neighbors = [];
  home = no_conn;
}

launch_cli-same_example :
    launch_cli
      (decentralized_peer world)
      decentralized_menu
      9
      []
      (reading (b'1' ∷ b'?' ∷ []))
      alone
      []
    ≡ launch_cli registering decentralized_menu 9 [] (reading (b'1' ∷ b'?' ∷ [])) alone []
launch_cli-same_example =
    launch_cli-same (decentralized_peer world) registering refl refl 9 []
      (reading (b'1' ∷ b'?' ∷ [])) alone []
