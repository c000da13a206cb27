-- ===== src/Session/Handler.antt =====
-- src/ftp/base_session.cpp: `handle_command`, `parse_buffer` and the handler of a received message.
use asio_ftp.Base.{
  ℕ, ◌-◌, Bool, Option, none, some, List, [], ◌∷◌, ◌++◌, Bytes, codes, is_empty, same, take, leb,
  if◌then◌else◌, Result, returned, thrown, out_of_bounds, ◌>>=◌,
}
use asio_ftp.Helpers.Strings.{string_split, string_join, string_to_uppercase}
use asio_ftp.Database.Sqlite.{Sqlite}
use asio_ftp.Session.State.{
  Session, Stage, unauthenticated, logged_in, ErrorCode, success, control_send, control_receive,
  control_close, answer,
}
use asio_ftp.Session.Commands.{Command, find_command}
use asio_ftp.Session.Navigation.{
  run_user, run_pass, run_cdup, run_cwd, run_mkd, run_rmd, run_dele, run_size, parse_retr_argument,
}
use asio_ftp.Session.Insecure.{run_pasv, run_list, run_stor, run_retr}

-- A command and its argument.
pub record Message : Type 0 where
  pub command : Bytes
  pub argument : Bytes

abbrev pub no_message : Message
no_message = record { command = []; argument = [] }

abbrev pub message_of : List Bytes → Result Message
message_of [] = thrown out_of_bounds
message_of (command ∷ arguments) =
    returned (record {
      command = string_to_uppercase command;
      argument = string_join arguments (codes " ");
    })

-- Called with three bytes or more.
unfoldable pub parse_buffer : Bytes → ℕ → Result Message
unfolding string_split string_join string_to_uppercase
parse_buffer buffer bytes_received =
    message_of (string_split (take (bytes_received - 2) buffer) (codes " "))

unfoldable pub handle_control_receive_callback : ErrorCode → Bytes → ℕ → Result Message
unfolding parse_buffer
handle_control_receive_callback success buffer bytes_received =
    if leb bytes_received 2 then returned no_message else parse_buffer buffer bytes_received
handle_control_receive_callback _ buffer bytes_received = returned no_message

module _ (S : Sqlite) (rand : ℕ → ℕ) (can_open : Bytes → Bool) where
  -- OPTS knows one argument; to another one there is no answer, but the session goes on.
  unfoldable pub run_opts : Bytes → Session S.Db → Session S.Db
  unfolding same
  run_opts argument s =
      if same argument (codes "UTF8 ON")
      then answer (codes "200 Enabled UTF-8 encoding.") s
      else control_receive s

  -- The commands behind the login. The first four are handled before.
  unfoldable pub run_logged_in : Command → Bytes → Session S.Db → Result (Session S.Db)
  unfolding run_opts
  run_logged_in Command.user argument s = returned s
  run_logged_in Command.pass argument s = returned s
  run_logged_in Command.syst argument s = returned s
  run_logged_in Command.quit argument s = returned s
  run_logged_in Command.pwd argument s =
      returned (answer (codes "257 \"" ++ (s.working_directory ++ codes "\"")) s)
  run_logged_in Command.type argument s = returned (answer (codes "200 OK.") s)
  run_logged_in Command.pasv argument s = returned (run_pasv s)
  run_logged_in Command.list argument s = run_list S rand can_open argument s
  run_logged_in Command.feat argument s =
      returned (
        answer (codes "211-Features:\r\n AUTH TLS\r\n PASV\r\n PBSZ\r\n PROT\r\n UTF8\r\n211 End")
          s)
  run_logged_in Command.cdup argument s = returned (run_cdup S rand s)
  run_logged_in Command.cwd argument s = run_cwd S rand argument s
  run_logged_in Command.mkd argument s = run_mkd S rand argument s
  run_logged_in Command.rmd argument s = run_rmd S rand argument s
  run_logged_in Command.dele argument s = run_dele S rand argument s
  run_logged_in Command.stor argument s = run_stor S rand can_open argument s
  run_logged_in Command.retr argument s = do
    parsed ← parse_retr_argument S rand argument s
    returned (run_retr S rand can_open parsed)
  run_logged_in Command.size argument s = run_size S rand argument s
  run_logged_in Command.pbsz argument s = returned (answer (codes "200 OK.") s)
  run_logged_in Command.prot argument s = returned (answer (codes "200 OK.") s)
  run_logged_in Command.opts argument s = returned (run_opts argument s)

  -- `deny access to unauthenticated clients`
  unfoldable pub guard_login : Stage → Command → Bytes → Session S.Db → Result (Session S.Db)
  guard_login unauthenticated command argument s = returned (answer (codes "530 Not logged in.") s)
  guard_login logged_in command argument s = run_logged_in command argument s

  unfoldable pub dispatch : Command → Bytes → Session S.Db → Result (Session S.Db)
  unfolding guard_login
  dispatch Command.user argument s = run_user S rand argument s
  dispatch Command.pass argument s = run_pass S rand argument s
  dispatch Command.syst argument s = returned (answer (codes "215 UNIX Type: L8") s)
  dispatch Command.quit argument s =
      returned (control_close (control_send (codes "221 Closing control connection.") s))
  dispatch command argument s = guard_login s.connection_stage command argument s

  -- What the search for the command found.
  unfoldable pub run_found : Option Command → Bytes → Session S.Db → Result (Session S.Db)
  run_found none argument s = returned (answer (codes "502 Command not implemented.") s)
  run_found (some command) argument s = dispatch command argument s

  unfoldable pub handle_command : Bytes → Bytes → Session S.Db → Result (Session S.Db)
  handle_command command argument s =
      if is_empty command then returned s else run_found (find_command command) argument s

  -- The completion of `control_receive`.
  unfoldable pub on_received : ErrorCode → Bytes → ℕ → Session S.Db → Result (Session S.Db)
  on_received ec buffer bytes_received s = do
    message ← handle_control_receive_callback ec buffer bytes_received
    handle_command message.command message.argument s
