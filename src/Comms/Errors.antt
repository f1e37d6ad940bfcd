-- ===== src/Comms/Errors.antt =====
-- recv_handleerror of src/comms.c, and what the receivers hold when they come to an error.
mod Tests
use cs550_pa.Prelude.{
  ℕ, zero, suc, ◌+◌, ◌-◌, ◌/◌, ◌%◌, ◌≡◌, ◌⊎◌, inl, inr, Bool-cases, Option-cases, refl, Bool, true,
  false, not, ◌==◌, ◌&&◌, ltb, leb, if◌then◌else◌, Option, none, some, List, [], ◌∷◌, ◌++◌, ℤ, pos,
  negsuc, length, take, drop,
}
use cs550_pa.Comms.{
  Msg, Malloc, Release, unmapped, closed, freed, Outcome, done, failed, fault, running, null_msg,
}
use cs550_pa.Comms.Send.{send_size, header_size, name_size}
use cs550_pa.Comms.Recv.{
  Delivery, FileSystem, recv_loop, store_at, bytes_left, recvfile_into, recvupdt_msg,
}

-- The flags of an error.
abbrev pub einitmsg : ℕ
einitmsg = 1

abbrev pub eaopen : ℕ
eaopen = 2

abbrev pub eaalloc : ℕ
eaalloc = 4

abbrev pub tfile : ℕ
tfile = 8

abbrev pub tupdt : ℕ
tupdt = 16

abbrev pub tuemt : ℕ
tuemt = 32

-- `flags & flag`, for a flag with one bit.
abbrev pub has_flag : ℕ → ℕ → Bool
has_flag flags flag = (flags / flag) % 2 == 1

-- `recv_handleerror`: the message that is returned, and what is released on the way.
unfoldable pub recv_handleerror : Msg → ℕ → Msg × List Release
recv_handleerror m flags =
    let gone : Msg = record { buf = []; size = 0; type = null_msg } in
    let opened = if has_flag flags eaopen then closed m.type ∷ [] else [] in
    let allocated =
      if not (has_flag flags eaalloc)
      then []
      else if has_flag flags tupdt
      then freed m.buf ∷ []
      else if has_flag flags tuemt
      then []
      else if has_flag flags tfile
      then unmapped m.buf ∷ []
      else [] in
    if flags == einitmsg then (gone, []) else (gone, opened ++ allocated)

-- What a receiver holds when it calls recv_handleerror, and what that releases. A block stands for
-- itself by the bytes that it had when it was made.
abbrev pub Handled : Type 0
Handled = List Release × List Release

abbrev released : Msg → ℕ → List Release
released m flags = (recv_handleerror m flags).1

abbrev file_error : ℕ → ℕ → List ℕ → List Release → ℕ → Handled
file_error fd size block held flags =
    (held, released (record { buf = block; size = size; type = pos fd }) flags)

-- The calls of recv_handleerror in recvfile_msg; `none` where it comes to none.
unfoldable pub recvfile_error :
    FileSystem → ℕ → List Delivery → ℕ → ℕ → List ℕ → List ℕ → Option Handled
recvfile_error fs fuel events size bytesread recvbuf path =
    if leb name_size (length path) then none else elim (fs.open_file path) [
      | none ↦ some (file_error 0 size [] [] tfile)
      | some fd ↦
          if fs.truncates
          then elim (fs.map_pages size) [
            | none ↦ some (file_error fd size [] (closed (pos fd) ∷ []) (tfile + eaopen))
            | some pages ↦
                if ltb bytesread header_size
                then none
                else elim (store_at header_size header_size (drop header_size recvbuf) pages) [
                  | none ↦ none
                  | some block ↦
                      elim (recv_loop fuel events header_size block bytesread
                        (bytes_left size header_size bytesread)) [
                          | failed ↦ some (
                              file_error fd size pages (closed (pos fd) ∷ unmapped pages ∷ [])
                                (tfile + eaopen + eaalloc))
                          | done full ↦ none
                          | fault ↦ none
                          | running ↦ none
                        ]
                ]
          ]
          else some (file_error fd size [] (closed (pos fd) ∷ []) (tfile + eaopen))
    ]

abbrev update_error : ℤ → ℕ → List ℕ → List Release → ℕ → Handled
update_error type size block held flags =
    (held, released (record { buf = block; size = size; type = type }) flags)

-- The calls of recv_handleerror in recvupdt_msg, which sets the flag of its kind, and never that of an
-- allocation.
unfoldable pub recvupdt_error : Malloc → ℕ → List Delivery → ℤ → ℕ → ℕ → List ℕ → Option Handled
recvupdt_error malloc fuel events type size bytesread prv =
    let count = if leb 12 bytesread && ltb (bytesread - 12) size then bytesread - 12 else size in
    if size == 0 then none else elim (malloc size) [
      | none ↦ some (update_error type size [] [] 0)
      | some raw ↦
          if ltb (send_size - 12) count
          then none
          else elim (store_at 12 12 (take count (drop 12 prv)) raw) [
            | none ↦ none
            | some block ↦
                elim (recv_loop fuel events 12 block bytesread (bytes_left size 12 bytesread)) [
                  | failed ↦ some (update_error type size raw (freed raw ∷ []) tupdt)
                  | done full ↦ none
                  | fault ↦ none
                  | running ↦ none
                ]
          ]
    ]

Outcome-cases {ℓ} :
    {A : Type ℓ} (o : Outcome A)
    → ((a : A) × (o ≡ done a)) ⊎ ((o ≡ failed) ⊎ ((o ≡ fault) ⊎ (o ≡ running)))
Outcome-cases (done a) = inl (a, refl)
Outcome-cases failed = inr (inl refl)
Outcome-cases fault = inr (inr (inl refl))
Outcome-cases running = inr (inr (inr refl))

-- An error of recvfile_msg once the file is mapped.
mapped-released :
    (fs : FileSystem) (fuel : ℕ) (events : List Delivery) (size bytesread : ℕ)
    (recvbuf path : List ℕ) (fd : ℕ) (pages : List ℕ)
    → leb name_size (length path) ≡ false
    → fs.open_file path ≡ some fd
    → fs.truncates ≡ true
    → fs.map_pages size ≡ some pages
    → recvfile_into fs fuel events size bytesread recvbuf path ≡ failed
    → (held : List Release) × (recvfile_error fs fuel events size bytesread recvbuf path
        ≡ some (held, held))
unfolding recv_handleerror recvfile_into recvfile_error
mapped-released fs fuel events size bytesread recvbuf path fd pages short opens truncates maps e =
    elim (Bool-cases (ltb bytesread header_size)) [
      | inl cut ↦ cc (rw (short, opens, truncates, maps, cut) at e)
      | inr whole ↦
          elim (Option-cases (store_at header_size header_size (drop header_size recvbuf) pages)) [
            | inl out ↦ cc (rw (short, opens, truncates, maps, whole, out) at e)
            | inr (block, kept) ↦
                elim (Outcome-cases (
                  recv_loop fuel events header_size block bytesread
                    (bytes_left size header_size bytesread))) [
                      | inl (full, r) ↦ cc (rw (short, opens, truncates, maps, whole, kept, r) at e)
                      | inr (inl r) ↦ (
                        closed (pos fd) ∷ unmapped pages ∷ [],
                        rw (short, opens, truncates, maps, whole, kept, r) refl,
                      )
                      | inr (inr (inl r)) ↦
                          cc (rw (short, opens, truncates, maps, whole, kept, r) at e)
                      | inr (inr (inr r)) ↦
                          cc (rw (short, opens, truncates, maps, whole, kept, r) at e)
                    ]
          ]
    ]

file-released :
    (fs : FileSystem) (fuel : ℕ) (events : List Delivery) (size bytesread : ℕ)
    (recvbuf path : List ℕ)
    → recvfile_into fs fuel events size bytesread recvbuf path ≡ failed
    → (held : List Release) × (recvfile_error fs fuel events size bytesread recvbuf path
        ≡ some (held, held))
unfolding recv_handleerror recvfile_into recvfile_error
file-released fs fuel events size bytesread recvbuf path e =
    elim (Bool-cases (leb name_size (length path))) [
      | inl long ↦ cc (rw long at e)
      | inr short ↦ elim (Option-cases (fs.open_file path)) [
        | inl refused ↦ ([], rw (short, refused) refl)
        | inr (fd, opens) ↦ elim (Bool-cases fs.truncates) [
          | inr refused ↦ (closed (pos fd) ∷ [], rw (short, opens, refused) refl)
          | inl truncates ↦ elim (Option-cases (fs.map_pages size)) [
            | inl refused ↦ (closed (pos fd) ∷ [], rw (short, opens, truncates, refused) refl)
            | inr (pages, maps) ↦
                mapped-released fs fuel events size bytesread recvbuf path fd pages short opens
                  truncates maps e
          ]
        ]
      ]
    ]

-- The block that `malloc` has given, if any.
abbrev pub block_of : Option (List ℕ) → List Release
block_of none = []
block_of (some raw) = freed raw ∷ []

update-leaked :
    (malloc : Malloc) (fuel : ℕ) (events : List Delivery) (type : ℤ) (size bytesread : ℕ)
    (prv : List ℕ)
    → recvupdt_msg malloc fuel events type size bytesread prv ≡ failed
    → recvupdt_error malloc fuel events type size bytesread prv ≡ some (block_of (malloc size), [])
unfolding recv_handleerror recvupdt_msg recvupdt_error
update-leaked malloc fuel events type size bytesread prv e =
    let count = if leb 12 bytesread && ltb (bytesread - 12) size then bytesread - 12 else size in
    elim (Bool-cases (size == 0)) [
      | inl empty ↦ cc (rw empty at e)
      | inr some_size ↦ elim (Option-cases (malloc size)) [
        | inl refused ↦ rw (some_size, refused) refl
        | inr (raw, given) ↦ elim (Bool-cases (ltb (send_size - 12) count)) [
          | inl long ↦ cc (rw (some_size, given, long) at e)
          | inr short ↦ elim (Option-cases (store_at 12 12 (take count (drop 12 prv)) raw)) [
            | inl out ↦ cc (rw (some_size, given, short, out) at e)
            | inr (block, kept) ↦
                elim (Outcome-cases
                  (recv_loop fuel events 12 block bytesread (bytes_left size 12 bytesread))) [
                    | inl (full, r) ↦ cc (rw (some_size, given, short, kept, r) at e)
                    | inr (inl r) ↦ rw (some_size, given, short, kept, r) refl
                    | inr (inr (inl r)) ↦ cc (rw (some_size, given, short, kept, r) at e)
                    | inr (inr (inr r)) ↦ cc (rw (some_size, given, short, kept, r) at e)
                  ]
          ]
        ]
      ]
    ]

-- Where the receiver of a file reports an error, recv_handleerror has released what was held, the
-- descriptor and the map, at whichever call the error arose; where the receiver of an update reports
-- one, it has released nothing, and a block that `malloc` had given is lost.
pub recv_handleerror-releases :
    (fs : FileSystem) (fuel : ℕ) (events : List Delivery) (size bytesread : ℕ)
    (recvbuf path : List ℕ) (malloc : Malloc) (fuel' : ℕ) (events' : List Delivery) (type : ℤ)
    (size' bytesread' : ℕ) (prv : List ℕ)
    → recvfile_into fs fuel events size bytesread recvbuf path ≡ failed
    → recvupdt_msg malloc fuel' events' type size' bytesread' prv ≡ failed
    → ((held : List Release) × (recvfile_error fs fuel events size bytesread recvbuf path
          ≡ some (held, held)))
      × (recvupdt_error malloc fuel' events' type size' bytesread' prv
          ≡ some (block_of (malloc size'), []))
recv_handleerror-releases fs fuel events size bytesread recvbuf path malloc fuel' events' type size'
      bytesread' prv e e' =
    (
      file-released fs fuel events size bytesread recvbuf path e,
      update-leaked malloc fuel' events' type size' bytesread' prv e',
    )
