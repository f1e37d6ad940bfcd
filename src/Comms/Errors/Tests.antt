-- ===== src/Comms/Errors/Tests.antt =====
-- Errors of the receivers of src/comms.c.
use cs550_pa.Prelude.{◌≡◌, refl, true, some, List, [], ◌∷◌, replicate, negsuc, bits_int}
use cs550_pa.Comms.{Release, failed}
use cs550_pa.Comms.Recv.{
  broken, FileSystem, recvfile_into, recvupdt_msg, recv_loop, store_at, bytes_left,
}
use cs550_pa.Comms.Errors.{recvfile_error, recvupdt_error, block_of, recv_handleerror-releases}

-- A file and an update whose streams break behind the first packet.
abbrev breaking_fs : FileSystem
breaking_fs = record {
  open_file = λ path. some 5;
  truncates = true;
  map_pages = λ size. some (replicate size 0);
}

file_breaks :
    recvfile_into breaking_fs 9 (broken ∷ []) 300 256 (replicate 256 0) (b'f' ∷ []) ≡ failed
unfolding recvfile_into recv_loop store_at bytes_left bits_int
file_breaks = refl

update_breaks :
    recvupdt_msg (λ n. some (replicate n 7)) 9 (broken ∷ []) (negsuc 0) 100 12 (replicate 1024 0)
    ≡ failed
unfolding recvupdt_msg recv_loop store_at bytes_left bits_int
update_breaks = refl

recv_handleerror-releases_example :
    ((held : List Release) × (recvfile_error breaking_fs 9
          (broken ∷ [])
          300
          256
          (replicate 256 0)
          (b'f' ∷ [])
        ≡ some (held, held)))
    × (recvupdt_error
          (λ n. some (replicate n 7))
          9
          (broken ∷ [])
          (negsuc 0)
          100
          12
          (replicate 1024 0)
        ≡ some (block_of (some (replicate 100 7)), []))
recv_handleerror-releases_example =
    recv_handleerror-releases breaking_fs 9 (broken ∷ []) 300 256 (replicate 256 0) (b'f' ∷ [])
      (λ n. some (replicate n 7)) 9 (broken ∷ []) (negsuc 0) 100 12 (replicate 1024 0) file_breaks
      update_breaks
