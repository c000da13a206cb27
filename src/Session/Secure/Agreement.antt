-- ===== src/Session/Secure/Agreement.antt =====
-- The overrides of src/ftp/secure_session.cpp against those of src/ftp/insecure_session.cpp.
use asio_ftp.Base.{ℕ, ◌≡◌, Bool, false, Bytes, List, [], ◌∷◌, Result, returned, thrown, arith}
use asio_ftp.Database.Sqlite.{Sqlite}
use asio_ftp.Session.State.{
  Session, Kind, plain, secure, Action, data_handshaking, data_shutting, data_closed,
}
use asio_ftp.Session.Transfer.{
  data_receive_file, open_new, open_existing, open_stream, data_close, close_open, data_send_file,
  send_contents, data_async_send, send_from, read_block,
}
use asio_ftp.Session.Insecure
use asio_ftp.Session.Secure.Overrides

-- What a session has asked for, where closing a data socket is not told from shutting its TLS stream
-- down, and with no TLS handshake.
abbrev pub blurred_out : List Action → List Action
blurred_out [] = []
blurred_out (data_handshaking ∷ out) = blurred_out out
blurred_out (data_shutting ∷ out) = data_closed ∷ blurred_out out
blurred_out (a ∷ out) = a ∷ blurred_out out

module _ {Db : Type 0} where
  abbrev pub as_kind : Kind → Session Db → Session Db
  as_kind k s = record s { kind = k }

  -- A session apart from its kind and from whether its data socket is open yet or still.
  abbrev pub blurred : Session Db → Session Db
  blurred s = record s { kind = plain; data_socket_open = false; out = blurred_out s.out }

  abbrev pub blurred_result : Result (Session Db) → Result (Session Db)
  blurred_result (thrown e) = thrown e
  blurred_result (returned s) = returned (blurred s)

module _ (S : Sqlite) (rand : ℕ → ℕ) (can_open : Bytes → Bool) where
  receive_alike :
      (s : Session S.Db)
      → blurred_result (data_receive_file S rand can_open (as_kind secure s))
        ≡ blurred_result (data_receive_file S rand can_open (as_kind plain s))
  unfolding data_receive_file open_new open_existing open_stream data_close close_open
  receive_alike s = ground arith

  send_alike :
      (s : Session S.Db)
      → blurred (data_send_file S rand can_open (as_kind secure s))
        ≡ blurred (data_send_file S rand can_open (as_kind plain s))
  unfolding data_send_file send_contents data_async_send send_from read_block data_close close_open
  send_alike s = ground arith
