-- ===== src/Session/Events/Absolute.antt =====
-- The working directory over any sequence of completions.
use asio_ftp.Base.{ℕ, ◌≡◌, Bool, true, Bytes, sym, subst, returned, >>=-returned, arith}
use asio_ftp.Helpers.Paths.Inverse.{IsAbsolute}
use asio_ftp.Database.Sqlite.{Sqlite}
use asio_ftp.Session.State.{Session, ErrorCode, success}
use asio_ftp.Session.Transfer.{
  data_close, close_open, data_async_send, send_from, read_block, data_async_send_end,
  handle_data_send_callback, handle_data_async_receive_callback, append_block, append_to,
  data_async_receive_end, handle_data_async_send_callback,
}
use asio_ftp.Session.Insecure.{handle_accept}
use asio_ftp.Session.Secure.Overrides.{handle_data_handshake, handle_data_shutdown}
use asio_ftp.Session.Secure.Overrides
use asio_ftp.Session.Handler.{handle_control_receive_callback, on_received}
use asio_ftp.Session.Directory.{handle_command-IsAbsolute}
use asio_ftp.Session.Stays.{lists-Stays, receives-Stays, sends-Stays}
use asio_ftp.Session.Events.{
  Event, message_received, socket_accepted, tls_accepted, tls_shaken, listing_sent, block_received,
  block_sent, tls_shut, Events, done, step,
}

module _ (S : Sqlite) (rand : ℕ → ℕ) (can_open : Bytes → Bool) where
  accept-Stays :
      (ec : ErrorCode) (s s' : Session S.Db)
      → handle_accept S rand can_open ec s ≡ returned s'
      → s'.working_directory ≡ s.working_directory
  unfolding handle_accept
  accept-Stays success s s' e =
      let begun : Session S.Db = record s { data_socket_open = true } in
      ground (
        arith,
        lists-Stays S rand can_open begun s',
        receives-Stays S rand can_open begun s',
        sends-Stays S rand can_open begun,
      )
  accept-Stays _ s s' e = cc e

  handshake-Stays :
      (ec : ErrorCode) (s s' : Session S.Db)
      → handle_data_handshake S rand can_open ec s ≡ returned s'
      → s'.working_directory ≡ s.working_directory
  unfolding handle_data_handshake
  handshake-Stays success s s' e = ground (
    arith,
    lists-Stays S rand can_open s s',
    receives-Stays S rand can_open s s',
    sends-Stays S rand can_open s,
  )
  handshake-Stays _ s s' e = cc e

  receive-Stays :
      (ec : ErrorCode) (block : Bytes) (written : Bool) (s s' : Session S.Db)
      → handle_data_async_receive_callback S rand can_open ec block written s ≡ returned s'
      → s'.working_directory ≡ s.working_directory
  unfolding handle_data_async_receive_callback append_block append_to data_async_receive_end
      data_close close_open
  receive-Stays ec block written s s' e = ground arith

  send-Stays :
      (ec : ErrorCode) (s : Session S.Db)
      → (handle_data_async_send_callback ec s).working_directory ≡ s.working_directory
  unfolding handle_data_async_send_callback data_async_send send_from read_block data_async_send_end
      data_close close_open
  send-Stays ec s = ground arith

  listed-Stays :
      (ec : ErrorCode) (s : Session S.Db)
      → (handle_data_send_callback ec s).working_directory ≡ s.working_directory
  unfolding handle_data_send_callback data_close close_open
  listed-Stays ec s = ground arith

  tls_accept-Stays :
      (ec : ErrorCode) (s : Session S.Db)
      → (Overrides.handle_accept ec s).working_directory ≡ s.working_directory
  unfolding Overrides.handle_accept
  tls_accept-Stays ec s = ground arith

  shut-Stays :
      (ec temp_ec cancel_ec : ErrorCode) (s : Session S.Db)
      → (handle_data_shutdown ec temp_ec cancel_ec s).working_directory ≡ s.working_directory
  unfolding handle_data_shutdown
  shut-Stays ec temp_ec cancel_ec s = ground arith

  Event-IsAbsolute :
      (s s' : Session S.Db)
      → Event S rand can_open s s'
      → IsAbsolute s.working_directory
      → IsAbsolute s'.working_directory
  unfolding on_received
  Event-IsAbsolute s s' (message_received ec buffer n e) h =
      let (message, e₁, e₂) = >>=-returned (handle_control_receive_callback ec buffer n) _ e in
      handle_command-IsAbsolute S rand can_open message.command message.argument s s' h e₂
  Event-IsAbsolute s s' (socket_accepted ec e) h = subst IsAbsolute (sym (accept-Stays ec s s' e)) h
  Event-IsAbsolute s s' (tls_accepted ec e) h = ground (arith, h, tls_accept-Stays ec s)
  Event-IsAbsolute s s' (tls_shaken ec e) h = subst IsAbsolute (sym (handshake-Stays ec s s' e)) h
  Event-IsAbsolute s s' (listing_sent ec e) h = ground (arith, h, listed-Stays ec s)
  Event-IsAbsolute s s' (block_received ec block written path _ e) h =
      subst IsAbsolute (sym (receive-Stays ec block written s s' e)) h
  Event-IsAbsolute s s' (block_sent ec f _ e) h = ground (arith, h, send-Stays ec s)
  Event-IsAbsolute s s' (tls_shut ec temp_ec cancel_ec e) h =
      ground (arith, h, shut-Stays ec temp_ec cancel_ec s)

  -- The working directory is absolute after every sequence of messages and completions of the data
  -- channel whose handlers return, if it was so before.
  pub Events-IsAbsolute :
      (s s' : Session S.Db)
      → Events S rand can_open s s'
      → IsAbsolute s.working_directory
      → IsAbsolute s'.working_directory
  Events-IsAbsolute s _ done h = h
  Events-IsAbsolute s s' (step {s' = next} event rest) h =
      Events-IsAbsolute next s' rest (Event-IsAbsolute s next event h)
