-- ===== src/Comms/FileTrip.antt =====
-- A file that one side sends is stored by the other under its own name (src/comms.c).
use cs550_pa.Prelude.{
  ℕ, ◌+◌, ◌-◌, ◌^◌, ◌≤◌, ◌<◌, ◌≡◌, sym, ap, ◌∙◌, arith, some, List, [], ◌∷◌, ◌++◌, map, length,
  take, drop, replicate, length-append, take-append_length, drop-append_length, append_assoc, ltb,
  true, false, ge→ltb, lt→leb, IsInt, pos,
}
use cs550_pa.Comms.{Msg, Malloc, IsSized, done, is_file_msg}
use cs550_pa.Comms.Name.{cstring, array, getname}
use cs550_pa.Comms.Basename.{Avoids, cstring-getname, length-getname, length-array}
use cs550_pa.Comms.Send.{Kernel, send_msg, preamble, send_size, name_size}
use cs550_pa.Comms.Recv.{
  Delivery, received, FileSystem, shared_dir, store_at, recv_loop, bytes_left, recvfile_into,
  recvfile_msg, recv_first, recv_msg,
}
use cs550_pa.Comms.Transmit.{Progresses, sendfile_msg-padded, length-preamble, padded}
use cs550_pa.Comms.Header.{bytes_left-eq, front_split}
use cs550_pa.Comms.Reassemble.{bytes_of, store_at-append}
use cs550_pa.Comms.RoundTrip.{Cuts}
use cs550_pa.Comms.Dispatch.{recv_first-dispatch}
use cs550_pa.Comms.FileBlock.{padded_front, length-padded-le, fill_file}

recvfile_into_steps :
    (fs : FileSystem) (fuel : ℕ) (events : List Delivery) (size n left fd : ℕ)
    (recvbuf front path pages block full : List ℕ)
    → length path < name_size
    → fs.open_file path ≡ some fd
    → fs.truncates ≡ true
    → fs.map_pages size ≡ some pages
    → drop 256 recvbuf ≡ front
    → store_at 256 256 front pages ≡ some block
    → bytes_left size 256 (256 + n) ≡ left
    → recv_loop fuel events 256 block (256 + n) left ≡ done full
    → recvfile_into fs fuel events size (256 + n) recvbuf path
      ≡ done (record {
        msg = record { buf = take size full; size = size; type = pos fd };
        stored = some path;
      })
unfolding recvfile_into
recvfile_into_steps fs fuel events size n left fd recvbuf front path pages block full fits opens
      truncs maps copy stored missing loop =
    rw (
      lt→leb (length path) name_size fits,
      opens,
      truncs,
      maps,
      short n,
      copy,
      stored,
      missing,
      loop,
    )
  where
    short : (n : ℕ) → ltb (256 + n) 256 ≡ false
    short n = ge→ltb (256 + n) 256 (omega arith)

-- The system calls of the receiver succeed: the file is opened under the path and becomes `fd`, and the
-- map covers it and at least one page.
pub record Stores (fs : FileSystem) (path : List ℕ) (size fd : ℕ) (pages : List ℕ) : Type 0 where
  pub opens : fs.open_file path ≡ some fd
  pub truncates : fs.truncates ≡ true
  pub maps : fs.map_pages size ≡ some pages
  pub covers : size ≤ length pages
  pub page : 4096 ≤ length pages

-- The header of a file message, with the name of the file in its 244 bytes.
abbrev pub name_of : List ℕ → List ℕ
name_of path = getname (array name_size path) name_size

module _ (fs : FileSystem) (fuel : ℕ) (m : Msg) (path front pages : List ℕ) (fd : ℕ)
    (cs : List (List ℕ)) (s : IsSized m) (small : m.size + 256 < 2 ^ 31)
    (ok : Stores fs path m.size fd pages) (short : length path < name_size)
    (fits : 256 + length front ≤ 1024) (stream : front ++ bytes_of cs ≡ padded 768 m.buf)
    (enough : length cs < fuel) where
  recvfile_into-padded :
      (recvbuf : List ℕ)
      → drop 256 recvbuf ≡ front
      → recvfile_into fs fuel (map received cs) m.size (256 + length front) recvbuf path
        ≡ done (record {
          msg = record { buf = m.buf; size = m.size; type = pos fd };
          stored = some path;
        })
  recvfile_into-padded recvbuf behind =
      let (z, e) = padded_front m.buf in
      let sizes = length-append m.buf z in
      let (b, ends, filled) =
        fill_file cs fuel m.buf z front pages (stream ∙ e)
          (omega (
            arith,
            ap (length {A = ℕ}) e,
            length-padded-le m.buf (length pages) (omega (arith, s.sized, ok.covers))
                (omega (arith, ok.page)),
          ))
          enough in
      recvfile_into_steps fs fuel (map received cs) m.size (length front)
        (length m.buf - length front) fd recvbuf front path pages
        (front ++ drop (length front) pages) b short ok.opens ok.truncates ok.maps behind
        (store_at-append 256 [] front pages (omega (arith, ok.page)))
        (bytes_left-eq m.size 256 (256 + length front) small fits ∙ omega (arith, s.sized)) ends
      ∙ rw (← s.sized, filled)

recvfile_msg-header :
    (fs : FileSystem) (fuel : ℕ) (events : List Delivery) (m : Msg) (name front z base : List ℕ)
    → length name ≡ name_size
    → cstring name ≡ base
    → recvfile_msg fs fuel events m.size
        (12 + length (name ++ front))
        (preamble m ++ ((name ++ front) ++ z))
      ≡ recvfile_into fs fuel events m.size
          (256 + length front)
          (preamble m ++ (name ++ front))
          (shared_dir ++ base)
unfolding recvfile_msg
recvfile_msg-header fs fuel events m name front z base h named =
    let size : 12 + length (name ++ front) ≡ 256 + length front =
      omega (arith, h, length-append name front) in
    let recvbuf = preamble m ++ (name ++ front) in
    let cut : take (256 + length front) (preamble m ++ ((name ++ front) ++ z)) ≡ recvbuf =
      rw (← append_assoc (preamble m) (name ++ front) z) (
        take-append_length (256 + length front) recvbuf z
          (omega (arith, size, length-preamble m, length-append (preamble m) (name ++ front)))) in
    let inside : take name_size (drop 12 recvbuf) ≡ name =
      rw (drop-append_length 12 (preamble m) (name ++ front) (length-preamble m))
        (take-append_length name_size name front h) in
    rw (size, cut)
      (ap
          (λ n.
            recvfile_into fs fuel events m.size (256 + length front) recvbuf
              (shared_dir ++ cstring n))
          inside
        ∙ ap
            (λ b.
              recvfile_into fs fuel events m.size (256 + length front) recvbuf (shared_dir ++ b))
            named)

recv_first-file :
    (malloc : Malloc) (fs : FileSystem) (fuel fd : ℕ) (m : Msg) (name front base pages : List ℕ)
    (cs : List (List ℕ))
    → IsSized m
    → IsInt m.type
    → is_file_msg m.type ≡ true
    → m.size + 256 < 2 ^ 31
    → length name ≡ name_size
    → cstring name ≡ base
    → 7 + length base < name_size
    → Stores fs (shared_dir ++ base) m.size fd pages
    → 256 + length front ≤ 1024
    → front ++ bytes_of cs ≡ padded 768 m.buf
    → length cs < fuel
    → recv_first malloc fs fuel (map received cs) (preamble m ++ (name ++ front))
      ≡ done (record {
        msg = record { buf = m.buf; size = m.size; type = pos fd };
        stored = some (shared_dir ++ base);
      })
recv_first-file malloc fs fuel fd m name front base pages cs s int file small named string short ok
      fits stream enough =
    let zeros : List ℕ = replicate (1012 - length (name ++ front)) 0 in
    let behind : drop 256 (preamble m ++ (name ++ front)) ≡ front =
      rw (← append_assoc (preamble m) name front) (
        drop-append_length 256 (preamble m ++ name) front
          (omega (arith, named, length-preamble m, length-append (preamble m) name))) in
    recv_first-dispatch malloc fs fuel (map received cs) m (name ++ front) int (omega arith)
      (omega (arith, fits, length-append name front, named))
    ∙ rw file (
        recvfile_msg-header fs fuel (map received cs) m name front zeros base named string
        ∙ recvfile_into-padded fs fuel m (shared_dir ++ base) front pages fd cs s small ok
            (omega arith) fits stream enough (preamble m ++ (name ++ front)) behind)

-- A file message arrives whole, for any size below 2 GiB less 256 bytes and any cut of the stream whose
-- first delivery is at most a packet and has the header: `recv_msg` returns the file's bytes, and has
-- stored them in the shared directory under the last component of the sender's path. The path and the
-- new one fit their arrays, the last component has no slash and no zero, the system calls of the receiver
-- succeed, the first `send` takes its whole packet and the others at least a byte each, and the fuel is
-- more than the size for the sender and more than the deliveries for the receiver.
pub recv_msg-sendfile_msg :
    (malloc : Malloc) (fs : FileSystem) (kernel : Kernel) (send_fuel fuel fd : ℕ) (m : Msg)
    (dir base pages first : List ℕ) (cs : List (List ℕ))
    → let path = dir ++ b'/' ∷ base in
      IsSized m
      → IsInt m.type
      → is_file_msg m.type ≡ true
      → m.size + 256 < 2 ^ 31
      → length path < name_size
      → Avoids b'/' base
      → Avoids 0 base
      → 7 + length base < name_size
      → Progresses kernel
      → kernel 0 send_size ≡ some send_size
      → m.size < send_fuel
      → Stores fs (shared_dir ++ base) m.size fd pages
      → Cuts 256 (preamble m ++ (name_of path ++ padded 768 m.buf)) first cs
      → length cs < fuel
      → (send_msg kernel (some path) send_fuel m ≡ done (first ++ bytes_of cs))
        × (recv_msg malloc fs fuel (received first ∷ map received cs)
            ≡ done (record {
              msg = record { buf = m.buf; size = m.size; type = pos fd };
              stored = some (shared_dir ++ base);
            }))
unfolding send_msg recv_msg
recv_msg-sendfile_msg malloc fs kernel send_fuel fuel fd m dir base pages first cs s int file small
      short clean nonzero fits p w sf ok cut enough =
    let path = dir ++ b'/' ∷ base in
    let name = name_of path in
    let named : length name ≡ name_size =
      length-getname (array name_size path) name_size ∙ length-array name_size path in
    let header : length (preamble m ++ name) ≡ 256 =
      omega (arith, named, length-preamble m, length-append (preamble m) name) in
    let (front, starts, behind) =
      front_split (preamble m ++ name) (padded 768 m.buf) first (bytes_of cs)
        (cut.whole ∙ sym (append_assoc (preamble m) name (padded 768 m.buf)))
        (omega (arith, header, cut.has_header)) in
    let size : length first ≡ 256 + length front =
      omega (arith, ap (length {A = ℕ}) starts, length-append (preamble m ++ name) front, header) in
    (
      rw (file, cut.whole) (sendfile_msg-padded kernel path send_fuel m s p w sf),
      ap (recv_first malloc fs fuel (map received cs))
            (starts ∙ append_assoc (preamble m) name front)
          ∙ recv_first-file malloc fs fuel fd m name front base pages cs s int file small named
              (cstring-getname name_size dir base short clean nonzero) fits ok
              (omega (arith, size, cut.fits)) (sym behind) enough,
    )
