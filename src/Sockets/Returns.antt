-- ===== src/Sockets/Returns.antt =====
-- When the loop of src/server.cpp comes to an end.
use cs550_pa.Prelude.{◌≡◌, refl, true, false, Bool-cases, inl, inr, List, ◌∷◌, ◌++◌}
use cs550_pa.Comms.{Conn, done}
use cs550_pa.Text.Lines.{All, all_nil, all_cons}
use cs550_pa.Sockets.{
  Table, Poll, poll_failed, poll_ready, poll_timeout, Accepted, accept, servacpt_conn,
}
use cs550_pa.Sockets.Loop.{Serving, queue_client, loop_turn, Turn, server_loop}

-- A wait that ends.
data Ends : List Poll → Type 0 where
  with_client : (polls : List Poll) → Ends (poll_ready ∷ polls)
  with_error : (polls : List Poll) → Ends (poll_failed ∷ polls)
  with_interrupt : (polls : List Poll) → Ends (poll_timeout true ∷ polls)
  after_timeout : (polls : List Poll) → Ends polls → Ends (poll_timeout false ∷ polls)

wait_ends :
    {polls : List Poll} (accepted : Accepted) (table : Table)
    → Ends polls
    → (r : Conn × Table) × (servacpt_conn polls accepted table ≡ done r)
unfolding servacpt_conn
wait_ends accepted table (with_client polls) = (accept accepted table, refl)
wait_ends accepted table (with_error polls) = (_, refl)
wait_ends accepted table (with_interrupt polls) = (accept accepted table, refl)
wait_ends accepted table (after_timeout polls h) = wait_ends accepted table h

turn_ends :
    {polls : List Poll} (accepted : Accepted) (s : Serving)
    → Ends polls
    → (s' : Serving) × (loop_turn polls accepted s ≡ done s')
unfolding loop_turn
turn_ends accepted s h =
    let (r, e) = wait_ends accepted s.table h in (queue_client r s.clients, rw (e, loop_turn) refl)

abbrev EndsTurn : Turn → Type 0
EndsTurn t = Ends t.polls

-- `server_loop` returns at the first turn that finds the interrupt set, if the wait of every turn before
-- ends, whatever those waits and the calls of `accept` come to, errors included.
server_loop-returns :
    {before : List Turn}
    → All EndsTurn before
    → (t : Turn) (later : List Turn) (s : Serving) → t.interrupt ≡ true
    → (s' : Serving) × (server_loop (before ++ t ∷ later) s ≡ done s')
unfolding server_loop
server_loop-returns all_nil t later s e = (s, rw (e, server_loop) refl)
server_loop-returns (all_cons x before h hs) t later s e =
    let (s', q) = turn_ends x.accepted s h in
    let (s'', k) = server_loop-returns hs t later s' e in
    elim (Bool-cases x.interrupt) [
      | inl set ↦ (s, rw (set, server_loop) refl)
      | inr unset ↦ (s'', rw (unset, server_loop, q) k)
    ]
