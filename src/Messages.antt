-- ===== src/Messages.antt =====
-- src/messages.cpp: the payloads of the messages, one constructor and one parser for each overload.
pub mod RoundTrip
mod Tests
use cs550_pa.Prelude.{
  ℕ, ◌+◌, ◌≡◌, leb, if◌then◌else◌, Option, none, some, List, [], ◌++◌, ℤ, length, take, drop,
}
use cs550_pa.Word.{int_bytes, read_int}
use cs550_pa.Comms.{Conn, Msg, Malloc, createupdt_msg}

infixl 5 ◌>>=◌
abbrev pub ◌>>=◌ {ℓ κ} : {A : Type ℓ} {B : Type κ} → Option A → (A → Option B) → Option B
none >>= f = none
some a >>= f = f a

-- IP_INFO_SIZE
abbrev pub ip_info_size : ℕ
ip_info_size = 8

-- A message whose payload is a fresh block; `none` is a null pointer, which the code would write to.
unfoldable pub with_block : Malloc → List ℕ → ℕ → ℤ → Option Msg
with_block malloc payload len type = elim (malloc len) [
  | none ↦ none
  | some raw ↦ some (record { buf = payload; size = len; type = type })
]

-- create_message(msg, type)
unfoldable pub create_status : Malloc → ℤ → Option Msg
create_status malloc type = createupdt_msg malloc [] 0 type

-- create_message(msg, str, conn, type)
unfoldable pub create_str_conn : Malloc → List ℕ → Conn → ℤ → Option Msg
create_str_conn malloc str conn type =
    with_block malloc (int_bytes conn.addr ++ (int_bytes conn.port ++ str))
      (ip_info_size + length str) type

-- create_message(msg, conn, type)
unfoldable pub create_conn : Malloc → Conn → ℤ → Option Msg
create_conn malloc conn type =
    createupdt_msg malloc (int_bytes conn.addr ++ int_bytes conn.port) ip_info_size type

-- create_message(msg, str, type)
unfoldable pub create_str : Malloc → List ℕ → ℤ → Option Msg
create_str malloc str type = with_block malloc str (length str) type

-- create_message(msg, id, conn, type)
unfoldable pub create_id_conn : Malloc → ℤ → Conn → ℤ → Option Msg
create_id_conn malloc id conn type =
    createupdt_msg malloc (int_bytes id ++ (int_bytes conn.addr ++ int_bytes conn.port))
      (ip_info_size + 4) type

-- create_message(msg, id, str, type)
unfoldable pub create_id_str : Malloc → ℤ → List ℕ → ℤ → Option Msg
create_id_str malloc id str type = with_block malloc (int_bytes id ++ str) (4 + length str) type

-- A parser reads its integers with no look at the size: `none` is a read past the end of the buffer.
-- It fills in the address and the port of the connection that it is given, and leaves the socket.

-- parse_message(msg, conn)
unfoldable pub parse_conn : Msg → Conn → Option Conn
parse_conn msg conn = do
  addr ← read_int 0 msg.buf
  port ← read_int 4 msg.buf
  some (record conn { addr = addr; port = port })

-- `str->assign(msg->buf + from, msg->buf + msg->size)`, which throws if the range is reversed.
unfoldable pub assign : ℕ → Msg → Option (List ℕ)
assign from msg = if leb from msg.size then some (drop from (take msg.size msg.buf)) else none

-- parse_message(msg, str)
unfoldable pub parse_str : Msg → Option (List ℕ)
parse_str msg = assign 0 msg

-- parse_message(msg, str, conn)
unfoldable pub parse_str_conn : Msg → Conn → Option (List ℕ × Conn)
parse_str_conn msg conn = do
  str ← assign ip_info_size msg
  addr ← read_int 0 msg.buf
  port ← read_int 4 msg.buf
  some (str, record conn { addr = addr; port = port })

-- parse_message(msg, id, conn)
unfoldable pub parse_id_conn : Msg → Conn → Option (ℤ × Conn)
parse_id_conn msg conn = do
  id ← read_int 0 msg.buf
  addr ← read_int 4 msg.buf
  port ← read_int 8 msg.buf
  some (id, record conn { addr = addr; port = port })

-- parse_message(msg, id, str)
unfoldable pub parse_id_str : Msg → Option (ℤ × List ℕ)
parse_id_str msg = do id ← read_int 0 msg.buf; str ← assign 4 msg; some (id, str)

-- parse_message(msg, id)
unfoldable pub parse_id : Msg → Option ℤ
parse_id msg = read_int 0 msg.buf
