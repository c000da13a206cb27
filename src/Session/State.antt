-- ===== src/Session/State.antt =====
-- src/ftp/base_session.hpp, src/ftp/constants.hpp: the members of a session, and what it asks of its
-- sockets. The sockets, the timer and TLS are outside: a call of theirs is an action in `out`, the
-- newest first, and its completion is an argument of the handler that is called back.
use asio_ftp.Base.{ℕ, ◌*◌, Bool, Option, List, [], ◌∷◌, ◌++◌, Bytes}
use asio_ftp.Database.World.{World}

pub data Stage : Type 0 where
  unauthenticated logged_in : Stage

-- What a completion handler is told. `truncated` is `ssl::error::stream_truncated`.
pub data ErrorCode : Type 0 where
  success eof truncated broken_pipe other : ErrorCode

-- The class of a session: `ftp::session` and `ftps::secure_session`.
pub data Kind : Type 0 where
  plain secure : Kind

pub data Action : Type 0 where
  -- `async_write` on the control socket, and `async_read_some`.
  sent : Bytes → Action
  receiving : Action
  -- Shutting the control socket.
  closed : Action
  -- `async_accept` on the data acceptor.
  accepting : Action
  -- `async_write` and `async_read` on the data socket, and closing it.
  data_sent : Bytes → Action
  data_receiving : Action
  data_closed : Action
  -- `async_shutdown` and `async_handshake` on the TLS stream of the data socket.
  data_shutting : Action
  data_handshaking : Action
  -- Before a control connection is secured: the wait of a timer until a time in milliseconds, a write
  -- and a read without TLS, and the handshake, which notes whether the client began it unasked.
  timer_waiting : ℕ → Action
  probe_sent : Bytes → Action
  probe_receiving : Action
  handshaking : Bool → Action
  -- The line that is printed when it fails, with which the session ends.
  handshake_error : Action

-- An open `ifstream`: the bytes not read yet, the end-of-file flag, and whether it can be read from. A
-- directory can be opened but not read from, and its end is never met.
pub record InFile : Type 0 where
  pub unread : Bytes
  pub at_end : Bool
  pub can_read : Bool

pub record Session (Db : Type 0) : Type 0 where
  pub kind : Kind
  pub world : World Db
  pub out : List Action
  -- The address of the control socket and the port of the data acceptor.
  pub address : Bytes
  pub port : ℕ
  pub data_socket_open : Bool
  pub connection_stage : Stage
  pub pending_directory_list : Bytes
  pub pending_directory_list_all : Bool
  pub pending_write_file : Bytes
  pub sendable_file_id : Bytes
  pub userid : Bytes
  pub username : Bytes
  pub working_directory : Bytes
  pub directory_list : Bytes
  pub receive_file_name : Bytes
  pub receive_file_path : Bytes
  pub received_file_size : ℕ
  -- The path of the file that an upload writes, and the file that a download reads.
  pub receive_file_stream : Option Bytes
  pub send_file_stream : Option InFile

abbrev pub send_buffer_size : ℕ
send_buffer_size = 1024 * 512

abbrev pub crlf : Bytes
crlf = b'\r' ∷ b'\n' ∷ []

module _ {Db : Type 0} where
  abbrev pub does : Action → Session Db → Session Db
  does a s = record s { out = a ∷ s.out }

  abbrev pub control_send : Bytes → Session Db → Session Db
  control_send message = does (sent (message ++ crlf))

  abbrev pub control_receive : Session Db → Session Db
  control_receive = does receiving

  abbrev pub control_close : Session Db → Session Db
  control_close = does closed

  -- The two calls in which most branches end.
  abbrev pub answer : Bytes → Session Db → Session Db
  answer message s = control_receive (control_send message s)
