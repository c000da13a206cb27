-- ===== src/Tests/Lists.antt =====
-- The theorems on LIST and on a RETR that does not end, tried on the sample database.
use asio_ftp.Base.{◌≡◌, refl, true, [], codes, same, returned}
use asio_ftp.Database.Memory.{Memory, memory_sqlite}
use asio_ftp.Session.State.{answer, Session}
use asio_ftp.Session.Handler.{handle_command, run_found, dispatch, guard_login, run_logged_in}
use asio_ftp.Session.Commands.{find_command}
use asio_ftp.Session.Navigation.{parse_retr_argument, no_arguments}
use asio_ftp.Session.Insecure.{run_retr}
use asio_ftp.Session.Download.{sent_data, is_sending, send_blocks}
use asio_ftp.Session.Endless.{handle_command-endless}
use asio_ftp.Tests.{rand, can_open}
use asio_ftp.Tests.Sessions.{ann_session}

abbrev lister : Session Memory
lister = record ann_session { data_socket_open = true }

-- The session in which RETR with no argument opens the directory of the files.
abbrev reading : Session Memory
reading = run_retr memory_sqlite rand can_open (answer no_arguments lister)

reading_run : handle_command memory_sqlite rand can_open (codes "RETR") [] lister ≡ returned reading
unfolding handle_command run_found dispatch find_command same guard_login run_logged_in
    parse_retr_argument
reading_run = refl

handle_command-endless_example :
    (sent_data (send_blocks 3 reading).out ≡ [])
    × (is_sending (send_blocks 3 reading).send_file_stream ≡ true)
unfolding same
handle_command-endless_example =
    handle_command-endless memory_sqlite rand can_open 3 lister reading refl refl refl refl refl
      reading_run
