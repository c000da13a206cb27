-- ===== src/Session/Transfer.antt =====
-- src/ftp/base_session.cpp: what goes over the data channel, with `data_close`, `data_send`,
-- `data_async_receive` and `data_async_send` of src/ftp/insecure_session.cpp, and `data_close` of both
-- kinds of session.
use asio_ftp.Base.{
  ℕ, ◌+◌, ◌&&◌, Bool, true, false, Option, none, some, [], ◌++◌, Bytes, codes, ltb, is_empty,
  if◌then◌else◌, length, take, drop, Result, returned, thrown, bad_number, ◌>>=◌,
}
use asio_ftp.Helpers.Decimal.{stoll}
use asio_ftp.Helpers.Paths.{get_basename, get_parent_path}
use asio_ftp.Database.Sqlite.{Sqlite}
use asio_ftp.Database.World.{write_file, data_file}
use asio_ftp.Database.Objects.{
  FsObject, get_object, get_objects_by_path, create_object, update_object_size,
}
use asio_ftp.Session.State.{
  Session, Kind, plain, secure, data_shutting, ErrorCode, success, InFile, does, control_send,
  send_buffer_size, data_sent, data_receiving, data_closed,
}
use asio_ftp.Session.Listing.{create_directory_list}

-- `m_send_file_stream->eof()`
abbrev pub is_at_end : Option InFile → Bool
is_at_end none = true
is_at_end (some f) = f.at_end

-- `m_send_file_stream->read(...)`: the bytes read, those behind them, and whether the read hit the end
-- of the file.
unfoldable pub next_block : Bytes → Bytes
next_block unread = take send_buffer_size unread

unfoldable pub behind_block : Bytes → Bytes
behind_block unread = drop send_buffer_size unread

unfoldable pub is_short : Bytes → Bool
is_short unread = ltb (length unread) send_buffer_size

module _ {Db : Type 0} where
  -- An open socket is closed. Over TLS it stays open until the stream has been shut down.
  unfoldable pub close_open : Kind → Session Db → Session Db
  close_open plain s = record (does data_closed s) { data_socket_open = false }
  close_open secure s = does data_shutting s

  -- The virtual `data_close`: nothing but a log line if the socket is not open.
  unfoldable pub data_close : Session Db → Session Db
  unfolding close_open
  data_close s = if s.data_socket_open then close_open s.kind s else s

  -- `data_send`
  abbrev pub data_send : Session Db → Session Db
  data_send s = does (data_sent s.directory_list) s

  abbrev pub data_async_receive : Session Db → Session Db
  data_async_receive = does data_receiving

  -- `read` into the send buffer, and `async_write` of the bytes read.
  unfoldable pub read_block : InFile → Session Db → Session Db
  read_block f s = record (does (data_sent (next_block f.unread)) s) {
    send_file_stream = some (record {
      unread = behind_block f.unread;
      at_end = f.can_read && is_short f.unread;
      can_read = f.can_read;
    });
  }

  -- Without a stream the call dereferences a null pointer; it is never made so.
  unfoldable pub send_from : Option InFile → Session Db → Session Db
  unfolding read_block
  send_from none s = s
  send_from (some f) s = read_block f s

  unfoldable pub data_async_send : Session Db → Session Db
  unfolding send_from
  data_async_send s = send_from s.send_file_stream s

  unfoldable pub data_async_send_end : Session Db → Session Db
  unfolding data_close
  data_async_send_end s = data_close (
      control_send (codes "226 Sent.")
        (record s { send_file_stream = none; sendable_file_id = [] }))

  -- At the end of the file, and on an error, the transfer ends.
  unfoldable pub handle_data_async_send_callback : ErrorCode → Session Db → Session Db
  unfolding data_async_send data_async_send_end
  handle_data_async_send_callback ec s =
      if is_at_end s.send_file_stream
      then data_async_send_end s
      else elim ec [ success ↦ data_async_send s | _ ↦ data_async_send_end s ]

  -- The listing has been written, or an error ends it with no reply.
  unfoldable pub handle_data_send_callback : ErrorCode → Session Db → Session Db
  unfolding data_close
  handle_data_send_callback success s = data_close (
      control_send (codes "226 Transferred.")
        (record s { pending_directory_list = []; pending_directory_list_all = false }))
  handle_data_send_callback _ s = s

-- `std::stoll`, or its exception.
abbrev pub number_or_throw : Option ℕ → Result ℕ
number_or_throw none = thrown bad_number
number_or_throw (some n) = returned n

abbrev pub stoll_or_throw : Bytes → Result ℕ
stoll_or_throw text = number_or_throw (stoll text)

-- The contents of a file, none of which there is before it is created.
abbrev pub contents_or_empty : Option Bytes → Bytes
contents_or_empty none = []
contents_or_empty (some contents) = contents

module _ (S : Sqlite) (rand : ℕ → ℕ) (can_open : Bytes → Bool) where
  unfoldable pub data_directory_listing : Session S.Db → Result (Session S.Db)
  unfolding create_directory_list
  data_directory_listing s = do
    (objects, w) ← get_objects_by_path S s.userid s.pending_directory_list s.world
    returned (
        data_send (record s {
          world = w;
          directory_list = create_directory_list objects s.username s.pending_directory_list_all;
        }))

  -- `ofstream` with `ios_base::app`: what the file holds stays. Without it the file is emptied.
  unfoldable pub open_stream : Bytes → Bytes → Session S.Db → Session S.Db
  unfolding data_close
  open_stream path contents s =
      if can_open path
      then data_async_receive (record s {
        world = record (s.world) { files = write_file (s.world).files path contents };
        receive_file_stream = some path;
      })
      else data_close (record s { receive_file_stream = none })

  -- The file of a new object, or of the object that is there.
  unfoldable pub open_new : Session S.Db → Result (Session S.Db)
  open_new s = do
    (id, w) ← create_object S rand s.userid s.receive_file_name s.receive_file_path 0 false s.world
    returned (
        open_stream (data_file id) (contents_or_empty (w.files (data_file id)))
          (record s { world = w }))

  unfoldable pub open_existing : FsObject → Session S.Db → Result (Session S.Db)
  open_existing object s = do
    size ← stoll_or_throw object.size
    returned (open_stream (data_file object.id) [] (record s { received_file_size = size }))

  unfoldable pub data_receive_file : Session S.Db → Result (Session S.Db)
  unfolding open_stream open_new open_existing
  data_receive_file s = do
    let named = record s {
      receive_file_path = get_parent_path s.pending_write_file;
      received_file_size = 0;
      receive_file_name = get_basename s.pending_write_file;
    }
    (object, w) ← get_object S s.userid named.receive_file_name named.receive_file_path s.world
    if is_empty object.id
        then open_new (record named { world = w })
        else open_existing object (record named { world = w })

  unfoldable pub data_async_receive_end : Session S.Db → Result (Session S.Db)
  unfolding data_close
  data_async_receive_end s = do
    (id, w) ←
        update_object_size S s.userid s.receive_file_name s.receive_file_path s.received_file_size
          s.world
    returned (
        data_close (
          control_send (codes "226 Received.")
            (record s { world = w; receive_file_stream = none; pending_write_file = [] })))

  -- `*m_receive_file_stream << &m_receive_buffer`: the received bytes behind those in the file. Where
  -- the file has been removed meanwhile, no path leads to what is written.
  unfoldable pub append_to : Option Bytes → Bytes → Session S.Db → Session S.Db
  append_to none block s = s
  append_to (some path) block s = elim ((s.world).files path) [
    | none ↦ s
    | some contents ↦ record s {
      world = record (s.world) { files = write_file (s.world).files path (contents ++ block) };
    }
  ]

  unfoldable pub append_block : Bytes → Session S.Db → Session S.Db
  append_block block s = append_to s.receive_file_stream block s

  -- A block has been read. `written` says that the stream has not failed.
  unfoldable pub handle_data_async_receive_callback :
      ErrorCode → Bytes → Bool → Session S.Db → Result (Session S.Db)
  unfolding append_block data_async_receive_end
  handle_data_async_receive_callback ec block written s =
      let counted = record s { received_file_size = s.received_file_size + length block } in
      let stored = if written then append_block block counted else counted in
      if written
      then elim ec [
        | success ↦ returned (data_async_receive stored)
        | _ ↦ data_async_receive_end stored
      ]
      else data_async_receive_end stored

  -- A file that cannot be opened leaves no stream. The empty name leads to the directory `data/`.
  unfoldable pub send_contents : Option Bytes → Session S.Db → Session S.Db
  unfolding data_async_send data_close
  send_contents none s =
      if is_empty s.sendable_file_id && can_open (data_file s.sendable_file_id)
      then data_async_send (record s {
        send_file_stream = some (record { unread = []; at_end = false; can_read = false });
      })
      else data_close (record s { send_file_stream = none })
  send_contents (some contents) s =
      if can_open (data_file s.sendable_file_id)
      then data_async_send (record s {
        send_file_stream = some (record { unread = contents; at_end = false; can_read = true });
      })
      else data_close (record s { send_file_stream = none })

  unfoldable pub data_send_file : Session S.Db → Session S.Db
  unfolding send_contents
  data_send_file s = send_contents ((s.world).files (data_file s.sendable_file_id)) s
