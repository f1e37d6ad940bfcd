-- ===== src/Sockets/Accept.antt =====
-- How long a server of src/comms.c waits for a client.
use cs550_pa.Prelude.{◌≡◌, refl, true, false, List, [], ◌∷◌, ◌++◌}
use cs550_pa.Comms.{Conn, no_conn, Outcome, done, running}
use cs550_pa.Text.Lines.{All, all_nil, all_cons}
use cs550_pa.Sockets.{
  Table, Poll, poll_failed, poll_ready, poll_timeout, Accepted, accept, servacpt_conn,
}

-- A timeout with no interrupt.
abbrev pub IsQuiet : Poll → Type 0
IsQuiet poll = poll ≡ poll_timeout false

-- What a wait comes to: it ends with the first poll that is not a quiet timeout, with `accept` unless
-- that poll has failed, and otherwise it goes on.
pub data Awaited (polls : List Poll) (accepted : Accepted) (table : Table)
    : Outcome (Conn × Table) → Type 0 where
  still_quiet : All IsQuiet polls → Awaited polls accepted table running
  gave_up :
      (quiet later : List Poll)
      → All IsQuiet quiet
      → polls ≡ quiet ++ poll_failed ∷ later
      → Awaited polls accepted table (done (no_conn, table))
  accepts :
      (quiet later : List Poll)
      → All IsQuiet quiet
      → polls ≡ quiet ++ poll_ready ∷ later
      → Awaited polls accepted table (done (accept accepted table))
  interrupted :
      (quiet later : List Poll)
      → All IsQuiet quiet
      → polls ≡ quiet ++ poll_timeout true ∷ later
      → Awaited polls accepted table (done (accept accepted table))

later_Awaited :
    {polls : List Poll} {accepted : Accepted} {table : Table} {r : Outcome (Conn × Table)}
    → Awaited polls accepted table r
    → Awaited (poll_timeout false ∷ polls) accepted table r
later_Awaited {polls} (still_quiet hs) = still_quiet (all_cons _ polls refl hs)
later_Awaited (gave_up quiet later hs e) =
    gave_up (poll_timeout false ∷ quiet) later (all_cons _ quiet refl hs) (rw e refl)
later_Awaited (accepts quiet later hs e) =
    accepts (poll_timeout false ∷ quiet) later (all_cons _ quiet refl hs) (rw e refl)
later_Awaited (interrupted quiet later hs e) =
    interrupted (poll_timeout false ∷ quiet) later (all_cons _ quiet refl hs) (rw e refl)

-- `servacpt_conn` waits over the timeouts with no interrupt, and over nothing else: the first poll that
-- is none ends it, with no connection and no new socket if the poll has failed, and with what `accept`
-- gives if there is a client or the interrupt is set.
pub servacpt_conn-Awaited :
    (polls : List Poll) (accepted : Accepted) (table : Table)
    → Awaited polls accepted table (servacpt_conn polls accepted table)
unfolding servacpt_conn
servacpt_conn-Awaited [] accepted table = still_quiet all_nil
servacpt_conn-Awaited (poll_failed ∷ polls) accepted table = gave_up [] polls all_nil refl
servacpt_conn-Awaited (poll_ready ∷ polls) accepted table = accepts [] polls all_nil refl
servacpt_conn-Awaited (poll_timeout true ∷ polls) accepted table = interrupted [] polls all_nil refl
servacpt_conn-Awaited (poll_timeout false ∷ polls) accepted table =
    later_Awaited (servacpt_conn-Awaited polls accepted table)
