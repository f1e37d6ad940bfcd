-- ===== src/CentralizedPeer/Search.antt =====
-- The messages of src/centralized_peer.cpp meet the index server of src/index_server.cpp.
use mathlib.Core.List.{Memᴰ}
use cs550_pa.Prelude.{
  ℕ, ◌+◌, ◌≡◌, ◌⊎◌, inl, inr, refl, ap, ◌∙◌, true, false, not, ◌&&◌, if◌then◌else◌, Bool, some,
  List, [], ◌∷◌, ℤ, pos, negsuc, is_negative, length, map, arith, Bool-cases,
}
use cs550_pa.Comms.{Conn, Msg, no_conn, replication_req}
use cs550_pa.Comms
use cs550_pa.Messages.{ip_info_size, create_str_conn}
use cs550_pa.Messages.RoundTrip.{IsEndpoint, moved, parse_str_conn-create_str_conn}
use cs550_pa.FileIndex.Lookup.{peers_of}
use cs550_pa.IndexServer
use cs550_pa.IndexServer.{Index, Host, Effect, answer, send_to, search_file}
use cs550_pa.IndexServer.Handlers.{registered, chosen, register_file-chosen}
use cs550_pa.CentralizedPeer.{
  World, Peer, Entry, register_file_calls, register_file, register_entries, register_directory,
}

-- The network brings the answer of the index server, in its state `index`, to the peer.
abbrev pub AsksIndex : World → Peer → Host → Index → Type 0
AsksIndex w peer host index =
    (m r : Msg)
    → search_file host m index ≡ some (index, answer r ∷ [])
    → w.net.ask peer.index_server m ≡ r

-- What a peer learns from a search.
abbrev pub Located : List ℕ → Conn → Index → Conn → Type 0
Located f junk index c =
    (peers_of f index.file_index ≡ []) × (c ≡ no_conn)
    ⊎ (p : Conn) × Memᴰ p (peers_of f index.file_index) × (c ≡ moved p junk)

register_file-once :
    (w : World) (peer : Peer) (f : List ℕ) (m : Msg)
    → create_str_conn w.malloc f peer.home Comms.register_file ≡ some m
    → register_file w peer f ≡ some (w.net.once peer.index_server m)
unfolding register_file register_file_calls
register_file-once w peer f m e = rw e

-- The message that `register_file` sends makes the index server add the peer under the name, with the
-- endpoint of the peer's own server, and ask for the copies that are missing. The parts of the endpoint
-- are `int`s and both sides get their memory.
pub register_file-registered :
    (w : World) (peer : Peer) (host : Host) (index : Index) (f raw raw' : List ℕ)
    → IsEndpoint peer.home
    → w.malloc (ip_info_size + length f) ≡ some raw
    → host.malloc (ip_info_size + length f) ≡ some raw'
    → let p = moved peer.home host.junk in
      (m replica : Msg) × (register_file w peer f ≡ some (w.net.once peer.index_server m))
      × (IndexServer.register_file host m index
          ≡ some (
            registered f p index,
            map (λ c. send_to c replica) (chosen host.rand f (registered f p index)),
          ))
register_file-registered w peer host index f raw raw' e h h' =
    let p = moved peer.home host.junk in
    let real : IsEndpoint p = record { addr_int = e.addr_int; port_int = e.port_int } in
    let (m, made, _, _, back) =
      parse_str_conn-create_str_conn w.malloc peer.home host.junk Comms.register_file e f raw h in
    let (replica, asks, _, _, _) =
      parse_str_conn-create_str_conn host.malloc p host.junk replication_req real f raw' h' in
    (
      m,
      replica,
      register_file-once w peer f m made,
      register_file-chosen host m replica f p index back asks,
    )

-- The names of the regular files of a directory.
unfoldable pub regular_names : List Entry → List (List ℕ)
regular_names [] = []
regular_names ((name, regular) ∷ entries) =
    if regular then name ∷ regular_names entries else regular_names entries

-- Whether none of the names is refused.
unfoldable pub all_accepted : (List ℕ → ℤ) → List (List ℕ) → Bool
all_accepted status [] = true
all_accepted status (f ∷ fs) = not (is_negative (status f)) && all_accepted status fs

register_entries-count :
    (w : World) (peer : Peer) (status : List ℕ → ℤ) (entries : List Entry) (n : ℕ)
    → ((f : List ℕ) → register_file w peer f ≡ some (status f))
    → register_entries w peer entries n
      ≡ some (
          if all_accepted status (regular_names entries)
          then pos (n + length (regular_names entries))
          else negsuc 0)
unfolding register_entries regular_names all_accepted
register_entries-count w peer status [] n h = ap (λ k. some (pos k)) (omega arith)
register_entries-count w peer status ((name, false) ∷ entries) n h =
    register_entries-count w peer status entries n h
register_entries-count w peer status ((name, true) ∷ entries) n h =
    elim (Bool-cases (is_negative (status name))) [
      | inl refused ↦ rw (h name, refused) refl
      | inr accepted ↦
          rw (h name, accepted)
            (register_entries-count w peer status entries (n + 1) h
              ∙ ap
                  (λ k.
                    some (if all_accepted status (regular_names entries) then pos k else negsuc 0))
                  (omega arith))
    ]

-- `register_directory` of a directory that can be opened returns how many regular files it has if the
-- registration of each of them is accepted, and -1 if one is refused. No registration crashes.
pub register_directory-count :
    (w : World) (peer : Peer) (status : List ℕ → ℤ) (entries : List Entry)
    → ((f : List ℕ) → register_file w peer f ≡ some (status f))
    → register_directory w peer (some entries)
      ≡ some (
          if all_accepted status (regular_names entries)
          then pos (length (regular_names entries))
          else negsuc 0)
unfolding register_directory
register_directory-count w peer status entries h =
    register_entries-count w peer status entries 0 h
    ∙ ap (λ k. some (if all_accepted status (regular_names entries) then pos k else negsuc 0))
        (omega arith)
