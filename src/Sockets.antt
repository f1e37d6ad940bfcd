-- ===== src/Sockets.antt =====
-- The connections of src/comms.c: which sockets the calls open and close, and what they return. What
-- the system answers is a parameter of each.
pub mod Address
pub mod Accept
pub mod Loop
pub mod Leaks
pub mod Returns
mod Tests
use cs550_pa.Prelude.{
  ℕ, zero, suc, ◌+◌, Bool, true, false, ◌||◌, ◌&&◌, ◌==◌, not, if◌then◌else◌, Option, none, some,
  List, [], ◌∷◌, ℤ, pos, negsuc, eq_ℤ, is_negative,
}
use cs550_pa.Comms.{Conn, no_conn, Outcome, done, failed, fault, running}
use cs550_pa.FileIndex.{same_name}

-- An address of a network interface.
pub data IfAddr : Type 0 where
  no_address other_family : IfAddr
  ipv4 : ℤ → IfAddr

pub record Interface : Type 0 where
  pub ifa_name : List ℕ
  pub ifa_addr : IfAddr

-- "lo"
abbrev pub loopback : List ℕ
loopback = b'l' ∷ b'o' ∷ []

abbrev pub usable : Interface → Option ℤ
usable ifa =
    if same_name ifa.ifa_name loopback
    then none
    else elim ifa.ifa_addr [ no_address ↦ none | other_family ↦ none | ipv4 addr ↦ some addr ]

-- `get_ipv4_address`, with what `getifaddrs` lists; `none` is its -1.
unfoldable pub get_ipv4_address : List Interface → Option ℤ
get_ipv4_address [] = none
get_ipv4_address (ifa ∷ addresses) = elim (usable ifa) [
  | some addr ↦ some addr
  | none ↦ get_ipv4_address addresses
]

-- Which descriptors of the process are open.
abbrev pub Table : Type 0
Table = ℕ → Bool

abbrev pub mark : Table → ℕ → Bool → Table
mark table fd b x = if x == fd then b else table x

-- `socket`, with the descriptor that it gives, if any.
abbrev pub socket : Option ℕ → Table → ℤ × Table
socket none table = (negsuc 0, table)
socket (some fd) table = (pos fd, mark table fd true)

abbrev pub close : ℤ → Table → Table
close (pos fd) table = mark table fd false
close (negsuc n) table = table

-- `servinitco_conn`, with whether `bind` succeeds: the result, and the connection that is filled in.
unfoldable pub servinitco_conn : Option ℕ → Bool → Conn → Table → ℤ × Conn × Table
servinitco_conn new binds given table =
    let (sock, table') = socket new table in
    let conn : Conn = record { addr = given.addr; port = given.port; sock = sock } in
    if is_negative sock || not binds then (negsuc 0, conn, table') else (pos 0, conn, table')

-- `servinit_conn`, with what `inet_addr` makes of the address.
unfoldable pub servinit_conn : Option ℕ → Bool → ℤ → ℤ → Table → ℤ × Conn × Table
servinit_conn new binds addr port table =
    let (sock, table') = socket new table in
    let conn : Conn = record { addr = addr; port = port; sock = sock } in
    if is_negative sock || not binds then (negsuc 0, conn, table') else (pos 0, conn, table')

-- `servlstn_conn`, with whether `listen` succeeds.
unfoldable pub servlstn_conn : Bool → ℤ
servlstn_conn listens = if listens then pos 0 else negsuc 0

-- What a call of `poll` comes to; after a timeout, whether the interrupt is set.
pub data Poll : Type 0 where
  poll_failed poll_ready : Poll
  poll_timeout : Bool → Poll

-- What `accept` gives: a descriptor, an address and a port.
abbrev pub Accepted : Type 0
Accepted = Option (ℕ × ℤ × ℤ)

abbrev pub accept : Accepted → Table → Conn × Table
accept none table = (no_conn, table)
accept (some (fd, addr, port)) table =
    (record { addr = addr; port = port; sock = pos fd }, mark table fd true)

-- `servacpt_conn`; it waits as long as the polls time out and the interrupt is not set.
unfoldable pub servacpt_conn : List Poll → Accepted → Table → Outcome (Conn × Table)
servacpt_conn [] accepted table = running
servacpt_conn (poll_failed ∷ polls) accepted table = done (no_conn, table)
servacpt_conn (poll_ready ∷ polls) accepted table = done (accept accepted table)
servacpt_conn (poll_timeout interrupt ∷ polls) accepted table = elim interrupt [
  | true ↦ done (accept accepted table)
  | false ↦ servacpt_conn polls accepted table
]

-- `clntinitco_conn`, with whether `connect` succeeds: it sets the socket of the connection only.
unfoldable pub clntinitco_conn : Option ℕ → (ℤ → ℤ → Bool) → Conn → Conn → Table → ℤ × Conn × Table
clntinitco_conn new connects conn srv table =
    let (sock, table') = socket new table in
    (
      if not (is_negative sock) && connects srv.addr srv.port then pos 0 else negsuc 0,
      record conn { sock = sock },
      table',
    )

-- `clntinit_conn`, with what `inet_addr` makes of the address.
unfoldable pub clntinit_conn : Option ℕ → (ℤ → ℤ → Bool) → Conn → ℤ → ℤ → Table → ℤ × Conn × Table
clntinit_conn new connects conn addr port table =
    let (sock, table') = socket new table in
    (
      if not (is_negative sock) && connects addr port then pos 0 else negsuc 0,
      record conn { sock = sock },
      table',
    )

unfoldable pub close_conn : Conn → Table → Conn × Table
close_conn conn table = (no_conn, close conn.sock table)

-- `send_once` of src/messages.cpp, with whether `send_msg` succeeds: the message goes over a socket of
-- its own, whatever `connect` has said, and the socket is closed on both branches.
unfoldable pub send_once :
    Option ℕ → (ℤ → ℤ → Bool) → Conn → (Conn → Bool) → Conn → Table → ℤ × Table
send_once new connects junk sends dest table =
    let (status, client, table') = clntinitco_conn new connects junk dest table in
    let (gone, table'') = close_conn client table' in
    (if sends client then pos 0 else negsuc 0, table'')

-- A turn of the loop of `request_replication` of src/index_server.cpp, which looks at no result.
unfoldable pub replicate_to : Option ℕ → (ℤ → ℤ → Bool) → Conn → Conn → Table → Table
replicate_to new connects junk peer table =
    let (status, client, table') = clntinitco_conn new connects junk peer table in
    (close_conn client table').1
