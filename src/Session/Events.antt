-- ===== src/Session/Events.antt =====
-- src/ftp/base_session.cpp, src/ftp/insecure_session.cpp and src/ftp/secure_session.cpp: a session over
-- the completions of what it waits for, in any order: messages of the client, and what the data
-- channel does meanwhile.
use asio_ftp.Base.{ℕ, ◌≡◌, Bool, Option, some, Bytes, returned}
use asio_ftp.Database.Sqlite.{Sqlite}
use asio_ftp.Session.State.{Session, ErrorCode, InFile}
use asio_ftp.Session.Transfer.{
  handle_data_send_callback, handle_data_async_receive_callback, handle_data_async_send_callback,
}
use asio_ftp.Session.Insecure.{handle_accept}
use asio_ftp.Session.Secure.Overrides.{handle_data_handshake, handle_data_shutdown}
use asio_ftp.Session.Secure.Overrides
use asio_ftp.Session.Handler.{on_received}
pub mod Quiet
pub mod Entrance
pub mod Absolute

-- One completion, with what it was told. A handler that throws leads nowhere. A block of a file is
-- received or sent only with a stream, which the code uses unchecked.
pub data Event (S : Sqlite) (rand : ℕ → ℕ) (can_open : Bytes → Bool) (s s' : Session S.Db)
    : Type 0 where
  message_received :
      (ec : ErrorCode) (buffer : Bytes) (bytes_received : ℕ)
      → on_received S rand can_open ec buffer bytes_received s ≡ returned s'
      → Event S rand can_open s s'
  socket_accepted :
      (ec : ErrorCode)
      → handle_accept S rand can_open ec s ≡ returned s'
      → Event S rand can_open s s'
  tls_accepted : (ec : ErrorCode) → Overrides.handle_accept ec s ≡ s' → Event S rand can_open s s'
  tls_shaken :
      (ec : ErrorCode)
      → handle_data_handshake S rand can_open ec s ≡ returned s'
      → Event S rand can_open s s'
  listing_sent : (ec : ErrorCode) → handle_data_send_callback ec s ≡ s' → Event S rand can_open s s'
  block_received :
      (ec : ErrorCode) (block : Bytes) (written : Bool) (path : Bytes)
      → s.receive_file_stream ≡ some path
      → handle_data_async_receive_callback S rand can_open ec block written s ≡ returned s'
      → Event S rand can_open s s'
  block_sent :
      (ec : ErrorCode) (f : InFile)
      → s.send_file_stream ≡ some f
      → handle_data_async_send_callback ec s ≡ s'
      → Event S rand can_open s s'
  tls_shut :
      (ec temp_ec cancel_ec : ErrorCode)
      → handle_data_shutdown ec temp_ec cancel_ec s ≡ s'
      → Event S rand can_open s s'

pub data Events (S : Sqlite) (rand : ℕ → ℕ) (can_open : Bytes → Bool)
    : Session S.Db → Session S.Db → Type 0 where
  done : {s : Session S.Db} → Events S rand can_open s s
  step :
      {s s' s'' : Session S.Db}
      → Event S rand can_open s s'
      → Events S rand can_open s' s''
      → Events S rand can_open s s''

-- One sequence behind another.
abbrev pub append :
    {S : Sqlite} {rand : ℕ → ℕ} {can_open : Bytes → Bool} {s s' s'' : Session S.Db}
    → Events S rand can_open s s'
    → Events S rand can_open s' s''
    → Events S rand can_open s s''
append done later = later
append (step event events) later = step event (append events later)
