-- ===== src/Tests/Events.antt =====
-- The theorems on a session over what completes, tried on the sample session.
use asio_ftp.Base.{◌≡◌, refl, true, codes, same, c_string, returned, ◌⊎◌}
use asio_ftp.Helpers.Paths.{child_path}
use asio_ftp.Helpers.Paths.Inverse.{IsAbsolute}
use asio_ftp.Helpers.Strings.{string_split, string_join, string_to_uppercase}
use asio_ftp.Database.Sqlite.{run_param_query, collect_rows}
use asio_ftp.Database.Users.{check_password}
use asio_ftp.Database.Memory.{Memory, memory_sqlite, memory_tables}
use asio_ftp.Database.Memory.Lawful.{memory_sqlite-IsLawful}
use asio_ftp.Session.State.{Session, success, logged_in, answer}
use asio_ftp.Session.Commands.{find_command}
use asio_ftp.Session.Navigation.{changed, run_pass}
use asio_ftp.Session.Insecure.{handle_accept}
use asio_ftp.Session.Handler.{
  on_received, parse_buffer, handle_control_receive_callback, handle_command, run_found, dispatch,
  guard_login, run_logged_in,
}
use asio_ftp.Session.Events.{socket_accepted, message_received, Events, done, step}
use asio_ftp.Session.Events.Quiet.{IsQuiet}
use asio_ftp.Session.Events.Entrance.{Entrance, Events-Entrance}
use asio_ftp.Session.Events.Absolute.{Events-IsAbsolute}
use asio_ftp.Session.Walk.{run_cwd-name}
use asio_ftp.Tests.{rand, can_open, db-HasIds}
use asio_ftp.Tests.Sessions.{docs_IsName, guest, ann_session, root_IsAbsolute}

abbrev connected : Session Memory → Session Memory
connected s = record s { data_socket_open = true }

abbrev let_in : Session Memory
let_in = answer (codes "230 Logged in.") (record (connected guest) { connection_stage = logged_in })

pass_received :
    on_received memory_sqlite rand can_open success (codes "PASS secret\r\n") 13 (connected guest)
    ≡ returned let_in
unfolding on_received handle_control_receive_callback parse_buffer string_split string_join
    string_to_uppercase handle_command run_found dispatch find_command same run_pass check_password
    run_param_query collect_rows c_string
pass_received = refl

guest_accepted :
    handle_accept memory_sqlite rand can_open success guest ≡ returned (connected guest)
unfolding handle_accept
guest_accepted = refl

guest-IsQuiet : IsQuiet guest
guest-IsQuiet = record {
  guest = refl;
  idle = record {
    no_list = refl;
    no_write = refl;
    no_file = refl;
    no_upload = refl;
    no_download = refl;
  };
}

-- A client whose data connection comes first, and then its password.
enters : Events memory_sqlite rand can_open guest let_in
enters =
    step (socket_accepted success guest_accepted)
      (step (message_received success (codes "PASS secret\r\n") 13 pass_received) done)

Events-Entrance_example :
    (IsQuiet let_in × (let_in.world ≡ guest.world))
    ⊎ Entrance memory_sqlite memory_tables memory_sqlite-IsLawful rand can_open enters
Events-Entrance_example =
    Events-Entrance memory_sqlite memory_tables memory_sqlite-IsLawful rand can_open guest let_in
      enters guest-IsQuiet

abbrev moved : Session Memory
moved = answer changed (record (connected ann_session) { working_directory = codes "/docs" })

ann_accepted :
    handle_accept memory_sqlite rand can_open success ann_session ≡ returned (connected ann_session)
unfolding handle_accept
ann_accepted = refl

cwd_received :
    on_received memory_sqlite rand can_open success
      (codes "CWD docs\r\n")
      10
      (connected ann_session)
    ≡ returned moved
unfolding on_received handle_control_receive_callback parse_buffer string_split string_join
    string_to_uppercase handle_command run_found dispatch find_command same guard_login
    run_logged_in child_path
cwd_received =
    run_cwd-name memory_sqlite memory_tables memory_sqlite-IsLawful rand (codes "docs")
      (connected ann_session) docs_IsName refl db-HasIds

-- A client that changes its directory after its data connection.
moves : Events memory_sqlite rand can_open ann_session moved
moves =
    step (socket_accepted success ann_accepted)
      (step (message_received success (codes "CWD docs\r\n") 10 cwd_received) done)

Events-IsAbsolute_example : IsAbsolute (codes "/docs")
Events-IsAbsolute_example =
    Events-IsAbsolute memory_sqlite rand can_open ann_session moved moves root_IsAbsolute
