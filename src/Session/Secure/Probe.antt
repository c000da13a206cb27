-- ===== src/Session/Secure/Probe.antt =====
-- src/ftp/secure_session.cpp: from the connection to the end of the TLS handshake. The stopwatch, the
-- timer and the bytes that wait in the socket are outside: what they read is an argument.
use asio_ftp.Base.{
  ℕ, ◌+◌, Bool, true, false, not, ◌&&◌, Option, none, some, List, [], ◌∷◌, ◌++◌, Bytes, codes, same,
  ltb, if◌then◌else◌, Result, returned, ◌>>=◌,
}
use asio_ftp.Session.State.{
  Session, unauthenticated, ErrorCode, success, Action, sent, timer_waiting, probe_sent,
  probe_receiving, handshaking, handshake_error, does, crlf,
}
use asio_ftp.Session.Handler.{handle_control_receive_callback}
use asio_ftp.Session.Secure.Overrides.{control_send, control_receive}

abbrev pub ftp_welcomemessage : Bytes
ftp_welcomemessage = codes "220 Welcome. Encryption required."

-- In milliseconds.
abbrev pub implicit_check_interval : ℕ
implicit_check_interval = 20

abbrev pub implicit_timeout : ℕ
implicit_timeout = 500

-- The members that only a secure session has. `expiry` is that of the timer, since it was made.
pub record SecureSession (Db : Type 0) : Type 0 where
  pub session : Session Db
  pub session_type : Bytes
  pub expiry : ℕ

-- What completes: the timer, a read before the handshake, and the handshake.
pub data Completion : Type 0 where
  timer_expired : (elapsed available : ℕ) → Completion
  probe_read : ErrorCode → Bytes → ℕ → Completion
  handshaken : ErrorCode → Completion

-- The operation that was started last and is no write.
abbrev pub awaited : List Action → Option Action
awaited [] = none
awaited (sent _ ∷ actions) = awaited actions
awaited (probe_sent _ ∷ actions) = awaited actions
awaited (action ∷ _) = some action

module _ {Db : Type 0} where
  abbrev pub acts : Action → SecureSession Db → SecureSession Db
  acts a p = record p { session = does a p.session }

  unfoldable pub probe_send : Bytes → SecureSession Db → SecureSession Db
  probe_send message = acts (probe_sent (message ++ crlf))

  -- `async_read_some` on the socket, which has no TLS yet.
  unfoldable pub probe_receive : SecureSession Db → SecureSession Db
  probe_receive = acts probe_receiving

  unfoldable pub start_secure : Bool → SecureSession Db → SecureSession Db
  start_secure is_implicit p =
      acts (handshaking is_implicit) (record p { session_type = codes "FTPS" })

  unfoldable pub wait_for_implicit : ℕ → ℕ → SecureSession Db → SecureSession Db
  unfolding probe_send probe_receive start_secure
  wait_for_implicit elapsed available p =
      if ltb implicit_timeout elapsed
      then probe_receive (probe_send ftp_welcomemessage p)
      else if ltb 100 available
      then start_secure true p
      else let until = p.expiry + implicit_check_interval in
        acts (timer_waiting until) (record p { expiry = until })

  -- The constructor names the type, and the timer starts with one interval.
  unfoldable pub start : ℕ → ℕ → Session Db → SecureSession Db
  unfolding wait_for_implicit
  start elapsed available s =
      wait_for_implicit elapsed available
        (record { session = s; session_type = codes "FTP "; expiry = implicit_check_interval })

  unfoldable pub handle_auth : Bytes → Bytes → SecureSession Db → SecureSession Db
  unfolding probe_send probe_receive start_secure
  handle_auth command argument p =
      if not (same command (codes "AUTH"))
      then probe_receive (probe_send (codes "503 Not AUTH.") p)
      else if not (same argument (codes "TLS")) && not (same argument (codes "SSL"))
      then probe_receive (probe_send (codes "502 Not supported.") p)
      else start_secure false (probe_send (codes "234 Proceed.") p)

  -- The completion of `probe_receive`.
  unfoldable pub on_probe_received :
      ErrorCode → Bytes → ℕ → SecureSession Db → Result (SecureSession Db)
  on_probe_received ec buffer bytes_received p = do
    message ← handle_control_receive_callback ec buffer bytes_received
    returned (handle_auth message.command message.argument p)

  -- The completion of the handshake. Clients in implicit mode have not seen the welcome yet.
  unfoldable pub secured : Bool → Session Db → Session Db
  unfolding control_send control_receive
  secured is_implicit s =
      control_receive (record (if is_implicit then control_send ftp_welcomemessage s else s) {
        connection_stage = unauthenticated;
      })

  unfoldable pub on_handshake : Bool → ErrorCode → SecureSession Db → SecureSession Db
  unfolding secured
  on_handshake is_implicit success p = record p { session = secured is_implicit p.session }
  on_handshake is_implicit _ p = acts handshake_error p

  -- A completion is that of the operation that is awaited: another one does not happen.
  unfoldable pub completes :
      Option Action → Completion → SecureSession Db → Result (SecureSession Db)
  completes (some (timer_waiting _)) (timer_expired elapsed available) p =
      returned (wait_for_implicit elapsed available p)
  completes (some probe_receiving) (probe_read ec buffer bytes_received) p =
      on_probe_received ec buffer bytes_received p
  completes (some (handshaking is_implicit)) (handshaken ec) p =
      returned (on_handshake is_implicit ec p)
  completes _ _ p = returned p

  unfoldable pub completed : List Completion → SecureSession Db → Result (SecureSession Db)
  completed [] p = returned p
  completed (c ∷ cs) p = completes (awaited (p.session).out) c p >>= completed cs
