-- ===== src/Messages/Tests.antt =====
-- Runs of the model of src/messages.cpp.
use cs550_pa.Prelude.{ℕ, ◌<◌, ◌≡◌, ◌↔◌, refl, arith, some, none, List, [], ◌∷◌, replicate, pos}
use cs550_pa.Comms.{Conn, Msg, Malloc, no_conn, register_file}
use cs550_pa.Messages.{parse_str_conn}
use cs550_pa.Messages.RoundTrip.{IsEndpoint, parse_str_conn-short}

abbrev grants : Malloc
grants n = some (replicate n 7)

-- 127.0.0.1 as `inet_addr` gives it, and the fixed port.
abbrev home : Conn
home = record { addr = pos 16777343; port = pos 8000; sock = pos 4 }

home-IsEndpoint : IsEndpoint home
home-IsEndpoint = record { addr_int = omega arith; port_int = omega arith }

abbrev name : List ℕ
name = b'f' ∷ b'1' ∷ []

-- A REGISTER_FILE with a name alone.
abbrev short : Msg
short = record { buf = name; size = 2; type = register_file }

parse_str_conn-short_example : (parse_str_conn short no_conn ≡ none) ↔ (2 < 8)
parse_str_conn-short_example = parse_str_conn-short short no_conn (record { sized = refl })
