-- ===== src/CentralizedPeer/Transfer.antt =====
-- Files between the peers of src/centralized_peer.cpp.
use cs550_pa.Prelude.{
  ℕ, ◌+◌, ◌-◌, ◌<◌, ◌≡◌, refl, ◌⊎◌, arith, if◌then◌else◌, List, [], ◌∷◌, ◌++◌, ℤ, pos, negsuc,
  is_negative, length, length-append, take, take-length, replicate, ge→ltb, lt→leb, suc, zero, inl,
  inr,
}
use cs550_pa.Comms.{
  Conn, Msg, Files, createfile_msg, Outcome, done, fault, failed, running, status_bad, request_file,
}
use cs550_pa.Comms
use cs550_pa.Comms.Name.{cstring, array}
use cs550_pa.Comms.Basename.{Avoids}
use cs550_pa.Comms.Recv.{shared_dir}
use cs550_pa.CentralizedPeer.{World, Peer, Call, asked, told, file_path, send_file, file_status}

cstring-Avoids : (xs : List ℕ) (n : ℕ) → Avoids 0 xs → 0 < n → cstring (xs ++ replicate n 0) ≡ xs
unfolding cstring
cstring-Avoids [] zero h p = absurd (omega arith)
cstring-Avoids [] (suc n) h p = refl
cstring-Avoids (x ∷ xs) n (h, k) p = ground (arith, cstring-Avoids xs n k p)

cstring-array :
    (len : ℕ) (xs : List ℕ) → Avoids 0 xs → length xs < len → cstring (array len xs) ≡ xs
unfolding array
cstring-array len xs clean fits =
    rw (take-length len xs (omega arith)) (cstring-Avoids xs (len - length xs) clean (omega arith))

-- What a peer sends for a file: the file, or a bare STATUS_BAD.
abbrev pub file_reply : Outcome Msg → Outcome (Msg × ℤ)
file_reply (done response) = done (response, pos 0)
file_reply failed = done (record { buf = []; size = 0; type = status_bad }, negsuc 0)
file_reply fault = fault
file_reply running = running

Outcome-cases :
    (o : Outcome Msg) → (o ≡ failed) ⊎ (o ≡ fault) ⊎ (o ≡ running) ⊎ (m : Msg) × (o ≡ done m)
Outcome-cases (done m) = inr (inr (inr (m, refl)))
Outcome-cases failed = inl refl
Outcome-cases fault = inr (inl refl)
Outcome-cases running = inr (inr (inl refl))

file_path-name :
    (m : Msg) (f : List ℕ)
    → m.buf ≡ f
    → m.size ≡ length f
    → Avoids 0 f
    → 7 + length f < 256
    → file_path m ≡ done (shared_dir ++ f)
unfolding file_path
file_path-name m f b s clean fits =
    let path = shared_dir ++ f in
    let size : length path ≡ 7 + length f = length-append shared_dir f in
    let put : take m.size m.buf ≡ f = rw (b, s) (take-length (length f) f (omega arith)) in
    rw (
      put,
      cstring-array 256 path (in_dir f clean) (omega (arith, size)),
      ge→ltb 256 (7 + m.size) (omega (arith, s)),
      lt→leb (length path) 256 (omega (arith, size)),
    )
  where
    in_dir : (f : List ℕ) → Avoids 0 f → Avoids 0 (shared_dir ++ f)
    in_dir f clean =
        (λ e. cc, (λ e. cc, (λ e. cc, (λ e. cc, (λ e. cc, (λ e. cc, (λ e. cc, clean)))))))

send_file_reply :
    (w : World) (m : Msg) (path : List ℕ)
    → file_path m ≡ done path
    → send_file w m ≡ file_reply (createfile_msg w.files path)
unfolding send_file
send_file_reply w m path e = elim (Outcome-cases (createfile_msg w.files path)) [
  | inl q ↦ rw (e, send_file, q)
  | inr (inl q) ↦ rw (e, send_file, q)
  | inr (inr (inl q)) ↦ rw (e, send_file, q)
  | inr (inr (inr (r, q))) ↦ rw (e, send_file, q)
]

-- A request for a file, by a name that has no zero and fits the array behind the directory, is answered
-- with the file of that name in the shared directory, and with a bare STATUS_BAD and -1 if it cannot be
-- opened or mapped, unless the text of the error overruns its array.
pub send_file-name :
    (w : World) (f : List ℕ)
    → Avoids 0 f
    → 7 + length f < 256
    → send_file w (record { buf = f; size = length f; type = request_file })
      ≡ file_reply (createfile_msg w.files (shared_dir ++ f))
send_file-name w f clean fits =
    send_file_reply w (record { buf = f; size = length f; type = request_file }) (shared_dir ++ f)
      (file_path-name (record { buf = f; size = length f; type = request_file }) f refl refl clean
        fits)

-- What replication does: it asks for the file, and tells the index server if that has succeeded.
abbrev pub replication : World → Peer → Conn → Msg → Msg → List Call × ℤ
replication w peer source request announce =
    if is_negative (file_status (w.net.ask source request))
    then (asked source request ∷ [], negsuc 0)
    else (
      asked source request ∷ told peer.index_server announce ∷ [],
      w.net.once peer.index_server announce,
    )
