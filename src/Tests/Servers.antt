-- ===== src/Tests/Servers.antt =====
-- The theorems on the server and the port of the data channel, tried on the sample session.
use asio_ftp.Base.{
  ℕ, ◌≡◌, refl, Bool, true, false, ◌==◌, [], ◌∷◌, ◌++◌, List, codes, c_string, same, returned,
  thrown, runtime_error,
}
use asio_ftp.Database.Sqlite.{run_param_query, collect_rows}
use asio_ftp.Database.Users.{check_password}
use asio_ftp.Helpers.Strings.{string_split, string_join, string_to_uppercase}
use asio_ftp.Database.Memory.{Memory, memory_sqlite, memory_tables}
use asio_ftp.Database.Memory.Lawful.{memory_sqlite-IsLawful}
use asio_ftp.Session.State.{unauthenticated, logged_in, success, answer, crlf}
use asio_ftp.Session.Commands.{find_command}
use asio_ftp.Session.Navigation.{run_pass}
use asio_ftp.Session.Handler.{
  handle_command, run_found, dispatch, handle_control_receive_callback, parse_buffer, on_received,
}
use asio_ftp.Server.{Server, Connection, ftp_session, received, client_received}
use asio_ftp.Server.Accepting.{Attempt}
use asio_ftp.Server.Isolation.{Arrival, Outcome, arrives, arrives-Outcome}
use asio_ftp.Tests.{db, world, rand, can_open, session}

abbrev waiting : Server Memory
waiting = record { world = world; secure = false; port = 21; accepting = true; clients = [] }

abbrev connection : Connection Memory
connection = record {
  is_configured = true;
  users_db = returned db;
  objects_db = returned db;
  listens = true;
  has_peer = true;
  elapsed = 0;
  available = 0;
  session = session unauthenticated;
}

-- The database of the second attempt cannot be opened.
abbrev attempts : List (Attempt Memory)
attempts =
    record { ec = success; connection = connection }
    ∷ record { ec = success; connection = record connection { objects_db = thrown runtime_error } }
    ∷ record { ec = success; connection = connection }
    ∷ []

-- Two guests; the second gives Ann's password.
abbrev guests : Server Memory
guests = record waiting {
  clients = ftp_session (session unauthenticated) ∷ ftp_session (session unauthenticated) ∷ [];
}

abbrev admitted : Server Memory
admitted = record waiting {
  clients =
      ftp_session (session unauthenticated)
      ∷ ftp_session (answer (codes "230 Logged in.") (session logged_in))
      ∷ [];
}

abbrev arrivals : List Arrival
arrivals =
    record { at = 1; ec = success; buffer = codes "PASS secret" ++ crlf; bytes_received = 13 } ∷ []

arrivals_run : arrives memory_sqlite rand can_open arrivals guests ≡ returned admitted
unfolding arrives received client_received on_received handle_control_receive_callback parse_buffer
    handle_command run_found dispatch find_command same run_pass check_password run_param_query
    collect_rows c_string string_split string_join string_to_uppercase
arrivals_run = refl

arrives-Outcome_example :
    Outcome memory_sqlite memory_tables memory_sqlite-IsLawful rand can_open arrivals guests
      admitted
arrives-Outcome_example =
    arrives-Outcome memory_sqlite memory_tables memory_sqlite-IsLawful rand can_open arrivals guests
      admitted (refl, (refl, tt)) arrivals_run

-- Only port 21 can be bound.
abbrev only_21 : ℕ → Bool
only_21 p = p == 21
