-- ===== src/Session/Secure/Overrides.antt =====
-- src/ftp/secure_session.cpp: the overrides of `base_session`'s virtual functions, but `start` and
-- `data_close`. A TLS stream is outside, as a socket is.
use asio_ftp.Base.{
  ℕ, ◌&&◌, ◌/◌, ◌%◌, Bool, true, false, not, Option, none, some, [], ◌∷◌, ◌++◌, Bytes, codes,
  is_empty, same, if◌then◌else◌, Result, returned, ◌>>=◌,
}
use asio_ftp.Helpers.Decimal.{to_string}
use asio_ftp.Helpers.Strings.{string_replace}
use asio_ftp.Helpers.Paths.{slash, is_slash_at, get_basename, get_parent_path}
use asio_ftp.Database.Sqlite.{Sqlite}
use asio_ftp.Database.World.{World}
use asio_ftp.Database.Objects.{get_object}
use asio_ftp.Session.State.{
  Session, InFile, ErrorCode, success, does, sent, receiving, closed, accepting, data_sent,
  data_receiving, data_closed, data_handshaking, crlf,
}
use asio_ftp.Session.Transfer.{
  next_block, behind_block, is_short, data_directory_listing, data_receive_file, data_send_file,
}

module _ {Db : Type 0} where
  unfoldable pub control_send : Bytes → Session Db → Session Db
  control_send message = does (sent (message ++ crlf))

  unfoldable pub control_receive : Session Db → Session Db
  control_receive = does receiving

  -- A shutdown that fails leaves the socket as it is.
  unfoldable pub control_close : ErrorCode → Session Db → Session Db
  control_close success s = does closed s
  control_close _ s = s

  unfoldable pub run_pasv : Session Db → Session Db
  unfolding control_send control_receive
  run_pasv s =
      let response_format =
        codes "227 Entering Passive Mode ("
        ++ (string_replace s.address (codes ".") (codes ",")
            ++ (codes ","
                ++ (to_string (s.port / 256)
                    ++ (codes "," ++ (to_string (s.port % 256) ++ codes ")"))))) in
      control_receive (control_send response_format s)

  unfoldable pub data_acceptor_start_accept : Session Db → Session Db
  data_acceptor_start_accept = does accepting

  unfoldable pub data_send : Session Db → Session Db
  data_send s = does (data_sent s.directory_list) s

  unfoldable pub data_async_receive : Session Db → Session Db
  data_async_receive = does data_receiving

  -- `m_send_file_stream->read(...)` and the write of what it read.
  unfoldable pub send_block : Option InFile → Session Db → Session Db
  send_block none s = s
  send_block (some f) s = record (does (data_sent (next_block f.unread)) s) {
    send_file_stream = some (record {
      unread = behind_block f.unread;
      at_end = f.can_read && is_short f.unread;
      can_read = f.can_read;
    });
  }

  unfoldable pub data_async_send : Session Db → Session Db
  unfolding send_block
  data_async_send s = send_block s.send_file_stream s

  -- A data socket has been accepted: it is open from here on, and the handshake begins.
  unfoldable pub handle_accept : ErrorCode → Session Db → Session Db
  handle_accept success s = does data_handshaking (record s { data_socket_open = true })
  handle_accept _ s = s

-- The path to write to.
unfoldable pub write_path : Bytes → Bytes → Bytes
write_path argument working_directory =
    if not (is_slash_at argument 0)
    then if same working_directory (slash ∷ [])
      then working_directory ++ argument
      else working_directory ++ slash ∷ argument
    else argument

module _ (S : Sqlite) where
  -- `parent_directory != "/" && get_object(...).id.empty()`
  unfoldable pub lacks_parent : Bytes → Session S.Db → Result (Bool × World S.Db)
  lacks_parent parent_directory s =
      if not (same parent_directory (slash ∷ []))
      then (do
        (object, w) ←
            get_object S s.userid (get_basename parent_directory) (get_parent_path parent_directory)
              s.world
        returned (is_empty object.id, w))
      else returned (false, s.world)

module _ (S : Sqlite) (rand : ℕ → ℕ) (can_open : Bytes → Bool) where
  unfoldable pub run_list : Bytes → Session S.Db → Result (Session S.Db)
  unfolding control_send control_receive data_acceptor_start_accept
  run_list argument s = if not (is_empty s.pending_directory_list) then returned s else do
    let pending = record s { pending_directory_list = s.working_directory }
    let noted =
        if same argument (codes "-la")
        then record pending { pending_directory_list_all = true }
        else pending
    if noted.data_socket_open
        then (do
          listed ←
              data_directory_listing S rand can_open
                (control_send (codes "150 Opening connection.") noted)
          returned (control_receive listed))
        else returned (
            data_acceptor_start_accept
              (control_receive (control_send (codes "150 Opening connection.") noted)))

  unfoldable pub receive_or_accept : Session S.Db → Result (Session S.Db)
  unfolding control_send control_receive data_acceptor_start_accept
  receive_or_accept s =
      if s.data_socket_open
      then (do
        begun ← data_receive_file S rand can_open (control_send (codes "150 Opening connection.") s)
        returned (control_receive begun))
      else returned (
          data_acceptor_start_accept
            (control_receive (control_send (codes "150 Waiting for connection") s)))

  unfoldable pub run_stor : Bytes → Session S.Db → Result (Session S.Db)
  unfolding control_send control_receive
  run_stor argument s =
      if is_empty argument
      then returned (control_receive (control_send (codes "501 No arguments presented.") s))
      else if not (is_empty s.pending_write_file)
      then returned s
      else do
        let pending = record s { pending_write_file = write_path argument s.working_directory }
        (missing, w) ← lacks_parent S (get_parent_path pending.pending_write_file) pending
        if missing
            then returned (record pending { world = w })
            else receive_or_accept (record pending { world = w })

  unfoldable pub run_retr : Session S.Db → Session S.Db
  unfolding control_send control_receive data_acceptor_start_accept
  run_retr s =
      if s.data_socket_open
      then control_receive
          (data_send_file S rand can_open (control_send (codes "150 Opening connection.") s))
      else data_acceptor_start_accept
          (control_receive (control_send (codes "150 Waiting for connection") s))

  -- The handshake is over: what waits first is done. After an error the socket stays open.
  unfoldable pub handle_data_handshake : ErrorCode → Session S.Db → Result (Session S.Db)
  handle_data_handshake success s =
      if not (is_empty s.pending_directory_list)
      then data_directory_listing S rand can_open s
      else if not (is_empty s.pending_write_file)
      then data_receive_file S rand can_open s
      else if not (is_empty s.sendable_file_id)
      then returned (data_send_file S rand can_open s)
      else returned s
  handle_data_handshake _ s = returned s

-- `data_close` waits for this: the socket is closed on every branch. The codes are those of the
-- TLS shutdown, of the shutdown below it, and of the cancelling of what is under way.
unfoldable pub handle_data_shutdown :
    {Db : Type 0} → ErrorCode → ErrorCode → ErrorCode → Session Db → Session Db
handle_data_shutdown success success success s = record (does data_closed s) {
  data_socket_open = false;
}
handle_data_shutdown success success _ s = record (does data_closed s) { data_socket_open = false }
handle_data_shutdown success _ cancel_ec s = record (does data_closed s) {
  data_socket_open = false;
}
handle_data_shutdown _ temp_ec cancel_ec s = record (does data_closed s) {
  data_socket_open = false;
}
