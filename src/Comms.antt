-- ===== src/Comms.antt =====
-- The data of src/comms.h, the constructors and the destructor of a message in src/comms.c.
pub mod Send
pub mod Recv
pub mod Name
pub mod Transmit
pub mod Holed
pub mod Dispatch
pub mod FileBlock
pub mod Header
pub mod RoundTrip
pub mod FileTrip
pub mod Reassemble
pub mod Closed
pub mod Overrun
pub mod Errors
pub mod Basename
pub mod Tests
use cs550_pa.Prelude.{
  ltb, ℕ, zero, suc, ◌+◌, ◌-◌, ◌^◌, ◌≡◌, refl, ap, Bool, true, false, if◌then◌else◌, ◌==◌, Option,
  none, some, List, [], ◌∷◌, ℤ, pos, negsuc, IsInt, is_positive, length, take, arith,
}

-- `conn_t`.
pub record Conn : Type 0 where
  pub addr : ℤ
  pub port : ℤ
  pub sock : ℤ

-- `{-1, -1, -1}`, by which the program says that there is no connection.
abbrev pub no_conn : Conn
no_conn = record { addr = negsuc 0; port = negsuc 0; sock = negsuc 0 }

-- `enum msg_type`. A file message has the file descriptor, a positive number, for its type.
abbrev pub null_msg : ℤ
null_msg = pos 0

abbrev pub new_user : ℤ
new_user = negsuc 0

abbrev pub search_index : ℤ
search_index = negsuc 1

abbrev pub request_file : ℤ
request_file = negsuc 2

abbrev pub register_file : ℤ
register_file = negsuc 3

abbrev pub replication_req : ℤ
replication_req = negsuc 4

abbrev pub status_ok : ℤ
status_ok = negsuc 5

-- The enumeration gives STATUS_BAD and DUP_REQUEST the same number.
abbrev pub status_bad : ℤ
status_bad = negsuc 6

abbrev pub dup_request : ℤ
dup_request = negsuc 6

abbrev pub is_file_msg : ℤ → Bool
is_file_msg t = is_positive t

-- `msg_t`. A null buffer is the empty one.
pub record Msg : Type 0 where
  pub buf : List ℕ
  pub size : ℕ
  pub type : ℤ

-- A message as the constructors leave it: the size is that of the buffer.
pub record IsSized (m : Msg) : Type 0 where
  pub sized : length m.buf ≡ m.size

-- What a call comes to: it returns, it reports an error, it touches memory out of bounds, or it has
-- not returned when the fuel is used up.
pub data Outcome {ℓ} (A : Type ℓ) : Type ℓ where
  done : A → Outcome A
  failed fault running : Outcome A

infixl 5 ◌>>=◌
abbrev pub ◌>>=◌ {ℓ κ} : {A : Type ℓ} {B : Type κ} → Outcome A → (A → Outcome B) → Outcome B
done a >>= f = f a
failed >>= f = failed
fault >>= f = fault
running >>= f = running

-- `malloc`, a parameter: the bytes that the block holds already, or a null pointer.
abbrev pub Malloc : Type 0
Malloc = ℕ → Option (List ℕ)

-- `createupdt_msg`; `none` is its -1. A message with no payload allocates nothing.
unfoldable pub createupdt_msg : Malloc → List ℕ → ℕ → ℤ → Option Msg
createupdt_msg malloc update_message len type =
    if len == 0 then some (record { buf = []; size = len; type = type }) else elim (malloc len) [
      | none ↦ none
      | some raw ↦ some (record { buf = take len update_message; size = len; type = type })
    ]

-- What `open`, `fstat` and `mmap` find at a path: the descriptor, the bytes, and whether the map is
-- made (it is refused for an empty file).
pub record OpenFile : Type 0 where
  pub fd : ℕ
  pub contents : List ℕ
  pub maps : Bool

abbrev pub Files : Type 0
Files = List ℕ → Option OpenFile

-- The room for the text of an error, and its length but for the path: with it comes a zero.
abbrev pub error_room : ℕ
error_room = 256

abbrev pub error_text : ℕ
error_text = 34

-- `createfile_msg`; `failed` is its -1. The text of the error for a path that cannot be opened is printed
-- into an array with no look at the path's length. The descriptor of a file that cannot be mapped stays
-- open.
unfoldable pub createfile_msg : Files → List ℕ → Outcome Msg
createfile_msg files path = elim (files path) [
  | none ↦ if ltb error_room (error_text + length path) then fault else failed
  | some f ↦
      if f.maps
      then done (record { buf = f.contents; size = length f.contents; type = pos f.fd })
      else failed
]

-- What `delete_msg` gives back to the system.
pub data Release : Type 0 where
  unmapped : List ℕ → Release
  closed : ℤ → Release
  freed : List ℕ → Release

-- `msg->size = -1`, as a `size_t`.
abbrev pub size_max : ℕ
size_max = 2 ^ 64 - 1

abbrev erased : Msg
erased = record { buf = []; size = size_max; type = null_msg }

free_buf : List ℕ → List Release
free_buf [] = []
free_buf (b ∷ bs) = freed (b ∷ bs) ∷ []

-- `delete_msg`, with whether `munmap` and `close` succeed: the message that is left, what was
-- released, and whether it returns 0.
unfoldable pub delete_msg : Bool → Bool → Msg → Msg × List Release × Bool
unfolding free_buf
delete_msg unmaps closes m =
    if is_file_msg m.type
    then (if unmaps
        then (if closes
            then (erased, unmapped m.buf ∷ closed m.type ∷ [], true)
            else (m, unmapped m.buf ∷ [], false))
        else (m, [], false))
    else (erased, free_buf m.buf, true)

-- A message that was deleted with success can be deleted again: that succeeds, releases nothing and
-- leaves the message as it is.
pub delete_msg_twice :
    (unmaps closes again again' : Bool) (m : Msg)
    → (delete_msg unmaps closes m).2 ≡ true
    → delete_msg again again' (delete_msg unmaps closes m).0 ≡ (erased, [], true)
unfolding delete_msg
delete_msg_twice unmaps closes again again' m h = ground arith
