-- ===== src/Session/Insecure.antt =====
-- src/ftp/insecure_session.cpp: the commands that use the data channel, and its acceptor.
use asio_ftp.Base.{
  ℕ, ◌/◌, ◌%◌, Bool, true, false, not, [], ◌∷◌, ◌++◌, Bytes, codes, is_empty, same, if◌then◌else◌,
  Result, returned, ◌>>=◌,
}
use asio_ftp.Helpers.Decimal.{to_string}
use asio_ftp.Helpers.Strings.{string_replace}
use asio_ftp.Helpers.Paths.{slash, is_slash_at, get_basename, get_parent_path}
use asio_ftp.Database.Sqlite.{Sqlite}
use asio_ftp.Database.World.{World}
use asio_ftp.Database.Objects.{get_object}
use asio_ftp.Session.State.{
  Session, unauthenticated, ErrorCode, success, does, control_send, control_receive, answer,
  accepting,
}
use asio_ftp.Session.Transfer.{data_directory_listing, data_receive_file, data_send_file}

-- The address with commas, and the two bytes of the port.
unfoldable pub pasv_response : Bytes → ℕ → Bytes
unfolding to_string string_replace
pasv_response address port =
    codes "227 Entering Passive Mode ("
    ++ (string_replace address (codes ".") (codes ",")
        ++ (codes ","
            ++ (to_string (port / 256) ++ (codes "," ++ (to_string (port % 256) ++ codes ")")))))

-- The path that an argument of STOR names.
unfoldable pub store_path : Bytes → Bytes → Bytes
unfolding same is_slash_at
store_path working_directory argument =
    if is_slash_at argument 0
    then argument
    else if same working_directory (slash ∷ [])
    then working_directory ++ argument
    else working_directory ++ slash ∷ argument

module _ {Db : Type 0} where
  abbrev pub data_acceptor_start_accept : Session Db → Session Db
  data_acceptor_start_accept = does accepting

  unfoldable pub run_pasv : Session Db → Session Db
  unfolding pasv_response
  run_pasv s = answer (pasv_response s.address s.port) s

  unfoldable pub start : Session Db → Session Db
  start s =
      answer (codes "220 Welcome. This connection is not secure")
        (record s { connection_stage = unauthenticated })

module _ (S : Sqlite) (rand : ℕ → ℕ) (can_open : Bytes → Bool) where
  -- A listing that is pending refuses another one, and the client gets no answer.
  unfoldable pub run_list : Bytes → Session S.Db → Result (Session S.Db)
  unfolding data_directory_listing same
  run_list argument s =
      if not (is_empty s.pending_directory_list)
      then returned s
      else let pending = record s {
        pending_directory_list = s.working_directory;
        pending_directory_list_all =
            if same argument (codes "-la") then true else s.pending_directory_list_all;
      } in
        let announced = control_send (codes "150 Opening connection.") pending in
        if s.data_socket_open
        then (do
          listed ← data_directory_listing S rand can_open announced
          returned (control_receive listed))
        else returned (data_acceptor_start_accept (control_receive announced))

  -- Whether the directory of the path is missing; the root never is.
  unfoldable pub parent_missing : Bytes → Bytes → World S.Db → Result (Bool × World S.Db)
  unfolding same get_parent_path get_basename
  parent_missing userid path w =
      let parent_directory = get_parent_path path in
      if same parent_directory (slash ∷ []) then returned (false, w) else do
        (object, w') ←
            get_object S userid (get_basename parent_directory) (get_parent_path parent_directory) w
        returned (is_empty object.id, w')

  -- With the path checked: receive at once where the data socket is open, or wait for it.
  unfoldable pub start_stor : Session S.Db → Result (Session S.Db)
  start_stor s =
      if s.data_socket_open
      then (do
        receiving ←
            data_receive_file S rand can_open (control_send (codes "150 Opening connection.") s)
        returned (control_receive receiving))
      else returned (
          data_acceptor_start_accept
            (control_receive (control_send (codes "150 Waiting for connection") s)))

  unfoldable pub run_stor : Bytes → Session S.Db → Result (Session S.Db)
  unfolding start_stor
  run_stor argument s =
      if is_empty argument
      then returned (answer (codes "501 No arguments presented.") s)
      else if not (is_empty s.pending_write_file)
      then returned s
      else do
        let pending = record s { pending_write_file = store_path s.working_directory argument }
        (missing, w) ← parent_missing pending.userid pending.pending_write_file pending.world
        let checked = record pending { world = w }
        if missing then returned checked else start_stor checked

  unfoldable pub run_retr : Session S.Db → Session S.Db
  run_retr s =
      if s.data_socket_open
      then control_receive
          (data_send_file S rand can_open (control_send (codes "150 Opening connection.") s))
      else data_acceptor_start_accept
          (control_receive (control_send (codes "150 Waiting for connection") s))

  -- A data socket has been accepted: what waits first is done.
  unfoldable pub handle_accept : ErrorCode → Session S.Db → Result (Session S.Db)
  handle_accept success s =
      let accepted = record s { data_socket_open = true } in
      if not (is_empty s.pending_directory_list)
      then data_directory_listing S rand can_open accepted
      else if not (is_empty s.pending_write_file)
      then data_receive_file S rand can_open accepted
      else if not (is_empty s.sendable_file_id)
      then returned (data_send_file S rand can_open accepted)
      else returned accepted
  handle_accept _ s = returned s
