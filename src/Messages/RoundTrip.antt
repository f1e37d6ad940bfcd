-- ===== src/Messages/RoundTrip.antt =====
-- Each parser of src/messages.cpp reads back what its constructor wrote.
use native.Mathlib.Decide.{dec_lt}
use cs550_pa.Prelude.{
  ℕ, suc, ◌+◌, ◌<◌, ◌≡◌, ◌↔◌, refl, sym, ap, ◌∙◌, arith, none, some, List, [], ◌++◌, ℤ, IsInt,
  int_bits, length, length-append, take-length, drop-append_length, append-nil, append_assoc,
  suc-eq-zero,
}
use cs550_pa.Word.{int_bytes, read_int, read_int-append, read_int-long, length-le_bytes}
use cs550_pa.Comms.{Conn, Msg, IsSized, Malloc, createupdt_msg}
use cs550_pa.Messages.{
  with_block, create_str_conn, create_conn, create_str, create_id_conn, create_id_str, parse_conn,
  assign, parse_str, parse_str_conn, parse_id_conn, parse_id_str, ip_info_size,
}

-- The parts of a connection that a message carries are `int`s.
pub record IsEndpoint (c : Conn) : Type 0 where
  pub addr_int : IsInt c.addr
  pub port_int : IsInt c.port

-- What a parsed connection is: the endpoint from the message, the socket that was there before.
abbrev pub moved : Conn → Conn → Conn
moved c old = record old { addr = c.addr; port = c.port }

length-int_bytes : (i : ℤ) → length (int_bytes i) ≡ 4
length-int_bytes i = length-le_bytes 4 (int_bits i)

read_first : (i : ℤ) (rest : List ℕ) → IsInt i → read_int 0 (int_bytes i ++ rest) ≡ some i
read_first i rest h = read_int-append 0 i [] rest refl h

read_second :
    (i j : ℤ) (rest : List ℕ) → IsInt j → read_int 4 (int_bytes i ++ (int_bytes j ++ rest)) ≡ some j
read_second i j rest h = read_int-append 4 j (int_bytes i) rest (length-int_bytes i) h

read_third :
    (i j k : ℤ) (rest : List ℕ)
    → IsInt k
    → read_int 8 (int_bytes i ++ (int_bytes j ++ (int_bytes k ++ rest))) ≡ some k
read_third i j k rest h = rw (← append_assoc (int_bytes i) (int_bytes j) (int_bytes k ++ rest)) (
    read_int-append 8 k (int_bytes i ++ int_bytes j) rest
      (length-append (int_bytes i) (int_bytes j)
        ∙ omega (arith, length-int_bytes i, length-int_bytes j))
      h)

-- The same at the end of the buffer.
read_second_last : (i j : ℤ) → IsInt j → read_int 4 (int_bytes i ++ int_bytes j) ≡ some j
read_second_last i j h =
    ap (λ xs. read_int 4 (int_bytes i ++ xs)) (sym (append-nil (int_bytes j)))
    ∙ read_second i j [] h

read_third_last :
    (i j k : ℤ) → IsInt k → read_int 8 (int_bytes i ++ (int_bytes j ++ int_bytes k)) ≡ some k
read_third_last i j k h =
    ap (λ xs. read_int 8 (int_bytes i ++ (int_bytes j ++ xs))) (sym (append-nil (int_bytes k)))
    ∙ read_third i j k [] h

assign-append :
    (from : ℕ) (header str : List ℕ) (type : ℤ)
    → length header ≡ from
    → assign from (record { buf = header ++ str; size = from + length str; type = type }) ≡ some str
unfolding assign
assign-append from header str type h =
    rw
      (
        take-length (from + length str) (header ++ str)
            (omega (arith, h, length-append header str)),
        drop-append_length from header str h,
      )
      (ground arith)

-- The message that a constructor makes out of a payload of the length that it computed.
abbrev built : List ℕ → ℕ → ℤ → Msg
built payload size type = record { buf = payload; size = size; type = type }

pub with_block-built :
    (malloc : Malloc) (payload raw : List ℕ) (n : ℕ) (type : ℤ)
    → malloc n ≡ some raw
    → with_block malloc payload n type ≡ some (built payload n type)
unfolding with_block
with_block-built malloc payload raw n type h = rw (h, with_block)

createupdt_msg-built :
    (malloc : Malloc) (payload raw : List ℕ) (n : ℕ) (type : ℤ)
    → malloc (suc n) ≡ some raw
    → length payload ≡ suc n
    → createupdt_msg malloc payload (suc n) type ≡ some (built payload (suc n) type)
unfolding createupdt_msg
createupdt_msg-built malloc payload raw n type h l =
    rw (suc-eq-zero n, h, take-length (suc n) payload (omega arith))

module _ (malloc : Malloc) (conn old : Conn) (type : ℤ) (e : IsEndpoint conn) where
  abbrev endpoint : List ℕ
  endpoint = int_bytes conn.addr ++ int_bytes conn.port

  length-endpoint : length endpoint ≡ 8
  length-endpoint =
      length-append (int_bytes conn.addr) (int_bytes conn.port)
      ∙ omega (arith, length-int_bytes conn.addr, length-int_bytes conn.port)

  -- A connection that goes into a message (NEW_USER, the answers of the index server) is read back:
  -- address and port are those that were written, and the socket is that of the connection read into.
  -- The parts are `int`s and `malloc` grants the block.
  pub parse_conn-create_conn :
      (raw : List ℕ)
      → malloc ip_info_size ≡ some raw
      → (m : Msg) × (create_conn malloc conn type ≡ some m)
        × IsSized m
        × (m.type ≡ type)
        × (parse_conn m old ≡ some (moved conn old))
  unfolding create_conn parse_conn
  parse_conn-create_conn raw h = (
    built endpoint 8 type,
    createupdt_msg-built malloc endpoint raw 7 type h length-endpoint,
    record { sized = length-endpoint },
    refl,
    rw (
      read_first conn.addr (int_bytes conn.port) e.addr_int,
      read_second_last conn.addr conn.port e.port_int,
    ),
  )

  -- A name and a connection that go into a message (REGISTER_FILE, REPLICATION_REQ) are read back, the
  -- name whatever its bytes are and the connection up to its socket, if its parts are `int`s and
  -- `malloc` grants the block.
  pub parse_str_conn-create_str_conn :
      (str raw : List ℕ)
      → malloc (ip_info_size + length str) ≡ some raw
      → (m : Msg) × (create_str_conn malloc str conn type ≡ some m)
        × IsSized m
        × (m.type ≡ type)
        × (parse_str_conn m old ≡ some (str, moved conn old))
  unfolding create_str_conn parse_str_conn
  parse_str_conn-create_str_conn str raw h =
      let payload = int_bytes conn.addr ++ (int_bytes conn.port ++ str) in
      let size = ip_info_size + length str in
      let total : length payload ≡ size = omega (
        arith,
        length-append (int_bytes conn.addr) (int_bytes conn.port ++ str),
        length-append (int_bytes conn.port) str,
        length-int_bytes conn.addr,
        length-int_bytes conn.port,
      ) in
      let name : assign ip_info_size (built payload size type) ≡ some str =
        rw (← append_assoc (int_bytes conn.addr) (int_bytes conn.port) str)
          (assign-append 8 endpoint str type length-endpoint) in
      (
        built payload size type,
        with_block-built malloc payload raw size type h,
        record { sized = total },
        refl,
        rw (
          name,
          read_first conn.addr (int_bytes conn.port ++ str) e.addr_int,
          read_second conn.addr conn.port str e.port_int,
        ),
      )

  -- A query id and a connection that go into a message (the answer of a peer that has the file) are
  -- read back, if the id and the parts of the connection are `int`s and `malloc` grants the block.
  pub parse_id_conn-create_id_conn :
      (id : ℤ) (raw : List ℕ)
      → IsInt id
      → malloc (ip_info_size + 4) ≡ some raw
      → (m : Msg) × (create_id_conn malloc id conn type ≡ some m)
        × IsSized m
        × (m.type ≡ type)
        × (parse_id_conn m old ≡ some (id, moved conn old))
  unfolding create_id_conn parse_id_conn
  parse_id_conn-create_id_conn id raw int h =
      let payload = int_bytes id ++ endpoint in
      let total : length payload ≡ 12 =
        omega
          (arith, length-append (int_bytes id) endpoint, length-int_bytes id, length-endpoint) in
      (
        built payload 12 type,
        createupdt_msg-built malloc payload raw 11 type h total,
        record { sized = total },
        refl,
        rw (
          read_first id endpoint int,
          read_second id conn.addr (int_bytes conn.port) e.addr_int,
          read_third_last id conn.addr conn.port e.port_int,
        ),
      )

-- A query id and a name that go into a message (SEARCH_INDEX between peers) are read back, if the id is
-- an `int` and `malloc` grants the block.
pub parse_id_str-create_id_str :
    (malloc : Malloc) (id type : ℤ) (str raw : List ℕ)
    → IsInt id
    → malloc (4 + length str) ≡ some raw
    → (m : Msg) × (create_id_str malloc id str type ≡ some m)
      × IsSized m
      × (m.type ≡ type)
      × (parse_id_str m ≡ some (id, str))
unfolding create_id_str parse_id_str
parse_id_str-create_id_str malloc id type str raw int h = (
  built (int_bytes id ++ str) (4 + length str) type,
  with_block-built malloc (int_bytes id ++ str) raw (4 + length str) type h,
  record { sized = length-append (int_bytes id) str ∙ omega (arith, length-int_bytes id) },
  refl,
  rw (read_first id str int, assign-append 4 (int_bytes id) str type (length-int_bytes id)),
)

-- A name that goes into a message (SEARCH_INDEX to the index server, REQUEST_FILE) is read back, if
-- `malloc` grants the block.
pub parse_str-create_str :
    (malloc : Malloc) (type : ℤ) (str raw : List ℕ)
    → malloc (length str) ≡ some raw
    → (m : Msg) × (create_str malloc str type ≡ some m)
      × IsSized m
      × (m.type ≡ type)
      × (parse_str m ≡ some str)
unfolding create_str parse_str
parse_str-create_str malloc type str raw h = (
  built str (length str) type,
  with_block-built malloc str raw (length str) type h,
  record { sized = refl },
  refl,
  ap (λ n. assign 0 (built str n type)) (omega arith) ∙ assign-append 0 [] str type refl,
)

-- Of a message whose size is that of its buffer, the parser of a name and a connection throws or reads
-- past the end if and only if the payload is shorter than the eight bytes of the connection.
pub parse_str_conn-short :
    (m : Msg) (old : Conn) → IsSized m → (parse_str_conn m old ≡ none) ↔ (m.size < 8)
unfolding parse_str_conn assign
parse_str_conn-short m old s = elim (dec_lt m.size 8) [
  | yes h ↦ (λ _. h, λ _. ground arith)
  | no h ↦
      let (addr, a) = read_int-long 0 m.buf (omega (arith, s.sized)) in
      let (port, p) = read_int-long 4 m.buf (omega (arith, s.sized)) in
      (λ e. ground (arith, a, p), λ q. absurd (h q))
]
