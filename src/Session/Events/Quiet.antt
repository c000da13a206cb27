-- ===== src/Session/Events/Quiet.antt =====
-- A client that is not logged in, over any sequence of completions: nothing of it waits on the data
-- channel, so that only a message can change anything.
use asio_ftp.Base.{
  ℕ, ◌≡◌, ◌∙◌, sym, Bool, true, false, Option, none, some, List, [], Bytes, is_empty, returned,
  Result, Bool-cases, inl, inr, arith,
}
use asio_ftp.Database.Sqlite.{Sqlite}
use asio_ftp.Session.State.{Session, Stage, unauthenticated, logged_in, ErrorCode, success, Action}
use asio_ftp.Session.Transfer.{handle_data_send_callback, data_close, close_open}
use asio_ftp.Session.Insecure.{handle_accept}
use asio_ftp.Session.Secure.Overrides.{handle_data_handshake, handle_data_shutdown}
use asio_ftp.Session.Secure.Overrides
use asio_ftp.Session.Commands.{Command, find_command}
use asio_ftp.Session.Navigation.{run_user, run_pass}
use asio_ftp.Session.Handler.{run_found, handle_command, dispatch, guard_login}

-- What waits for the data channel, and what goes over it.
pub record IsIdle {Db : Type 0} (s : Session Db) : Type 0 where
  pub no_list : s.pending_directory_list ≡ []
  pub no_write : s.pending_write_file ≡ []
  pub no_file : s.sendable_file_id ≡ []
  pub no_upload : s.receive_file_stream ≡ none
  pub no_download : s.send_file_stream ≡ none

module _ {Db : Type 0} where
  idles :
      {s s' : Session Db}
      → IsIdle s
      → s'.pending_directory_list ≡ s.pending_directory_list
      → s'.pending_write_file ≡ s.pending_write_file
      → s'.sendable_file_id ≡ s.sendable_file_id
      → s'.receive_file_stream ≡ s.receive_file_stream
      → s'.send_file_stream ≡ s.send_file_stream
      → IsIdle s'
  idles h list write file upload download = record {
    no_list = list ∙ h.no_list;
    no_write = write ∙ h.no_write;
    no_file = file ∙ h.no_file;
    no_upload = upload ∙ h.no_upload;
    no_download = download ∙ h.no_download;
  }

  -- A client that is not logged in, and nothing of which is under way.
  pub record IsQuiet (s : Session Db) : Type 0 where
    pub guest : s.connection_stage ≡ unauthenticated
    pub idle : IsIdle s

module _ (S : Sqlite) (rand : ℕ → ℕ) (can_open : Bytes → Bool) where
  abbrev KeepsIdle : Result (Session S.Db) → Type 0
  KeepsIdle m = (s' : Session S.Db) → m ≡ returned s' → IsIdle s'

  run_user-KeepsIdle :
      (argument : Bytes) (s : Session S.Db) → IsIdle s → KeepsIdle (run_user S rand argument s)
  unfolding run_user
  run_user-KeepsIdle argument s h s' e =
      idles h (ground arith) (ground arith) (ground arith) (ground arith) (ground arith)

  run_pass-KeepsIdle :
      (argument : Bytes) (s : Session S.Db) → IsIdle s → KeepsIdle (run_pass S rand argument s)
  unfolding run_pass
  run_pass-KeepsIdle argument s h s' e =
      idles h (ground arith) (ground arith) (ground arith) (ground arith) (ground arith)

  -- A change of `out` only.
  out-KeepsIdle :
      (out : List Action) (s : Session S.Db)
      → IsIdle s
      → KeepsIdle (returned (record s { out = out }))
  out-KeepsIdle out s h s' e =
      idles h (ground arith) (ground arith) (ground arith) (ground arith) (ground arith)

  guard_login-KeepsIdle :
      (stage : Stage) (c : Command) (argument : Bytes) (s : Session S.Db)
      → stage ≡ unauthenticated
      → IsIdle s
      → KeepsIdle (guard_login S rand can_open stage c argument s)
  unfolding guard_login
  guard_login-KeepsIdle unauthenticated c argument s _ h = out-KeepsIdle _ s h
  guard_login-KeepsIdle logged_in c argument s u h = absurd (cc u)

  dispatch-KeepsIdle :
      (c : Command) (argument : Bytes) (s : Session S.Db)
      → IsQuiet s
      → KeepsIdle (dispatch S rand can_open c argument s)
  unfolding dispatch
  dispatch-KeepsIdle Command.user argument s q = run_user-KeepsIdle argument s q.idle
  dispatch-KeepsIdle Command.pass argument s q = run_pass-KeepsIdle argument s q.idle
  dispatch-KeepsIdle Command.syst argument s q = out-KeepsIdle _ s q.idle
  dispatch-KeepsIdle Command.quit argument s q = out-KeepsIdle _ s q.idle
  dispatch-KeepsIdle c argument s q =
      guard_login-KeepsIdle s.connection_stage c argument s q.guest q.idle

  run_found-KeepsIdle :
      (o : Option Command) (argument : Bytes) (s : Session S.Db)
      → IsQuiet s
      → KeepsIdle (run_found S rand can_open o argument s)
  unfolding run_found
  run_found-KeepsIdle none argument s q = out-KeepsIdle _ s q.idle
  run_found-KeepsIdle (some c) argument s q = dispatch-KeepsIdle c argument s q

  pub handle_command-KeepsIdle :
      (command argument : Bytes) (s : Session S.Db)
      → IsQuiet s
      → KeepsIdle (handle_command S rand can_open command argument s)
  unfolding handle_command
  handle_command-KeepsIdle command argument s q s' = elim (Bool-cases (is_empty command)) [
    | inl empty ↦ rw empty (out-KeepsIdle _ s q.idle s')
    | inr named ↦ rw named (run_found-KeepsIdle (find_command command) argument s q s')
  ]

  -- What a completion of the data channel may do to a quiet session.
  pub record Settled (s s' : Session S.Db) : Type 0 where
    pub world_kept : s'.world ≡ s.world
    pub guest : s'.connection_stage ≡ s.connection_stage
    pub idle : IsIdle s'

  -- Only whether the data socket is open, and `out`.
  socket_lem :
      (s : Session S.Db) (b : Bool) (out : List Action) (s' : Session S.Db)
      → IsIdle s
      → s' ≡ record s { data_socket_open = b; out = out }
      → Settled s s'
  socket_lem s b out s' h e = record {
    world_kept = cc e;
    guest = cc e;
    idle = idles h (cc e) (cc e) (cc e) (cc e) (cc e);
  }

  pub accept-Settled :
      (ec : ErrorCode) (s s' : Session S.Db)
      → IsIdle s
      → handle_accept S rand can_open ec s ≡ returned s'
      → Settled s s'
  unfolding handle_accept
  accept-Settled success s s' h e =
      socket_lem s true s.out s' h (ground (arith, h.no_list, h.no_write, h.no_file))
  accept-Settled _ s s' h e = socket_lem s s.data_socket_open s.out s' h (cc e)

  pub handshake-Settled :
      (ec : ErrorCode) (s s' : Session S.Db)
      → IsIdle s
      → handle_data_handshake S rand can_open ec s ≡ returned s'
      → Settled s s'
  unfolding handle_data_handshake
  handshake-Settled success s s' h e =
      socket_lem s s.data_socket_open s.out s' h (ground (arith, h.no_list, h.no_write, h.no_file))
  handshake-Settled _ s s' h e = socket_lem s s.data_socket_open s.out s' h (cc e)

  pub tls_accept-Settled :
      (ec : ErrorCode) (s s' : Session S.Db)
      → IsIdle s
      → Overrides.handle_accept ec s ≡ s'
      → Settled s s'
  unfolding Overrides.handle_accept
  tls_accept-Settled success s s' h = λ e. socket_lem s true _ s' h (sym e)
  tls_accept-Settled _ s s' h = λ e. socket_lem s s.data_socket_open _ s' h (sym e)

  pub shut-Settled :
      (ec temp_ec cancel_ec : ErrorCode) (s s' : Session S.Db)
      → IsIdle s
      → handle_data_shutdown ec temp_ec cancel_ec s ≡ s'
      → Settled s s'
  unfolding handle_data_shutdown
  shut-Settled success success success s s' h = λ e. socket_lem s false _ s' h (sym e)
  shut-Settled success success _ s s' h = λ e. socket_lem s false _ s' h (sym e)
  shut-Settled success _ cancel_ec s s' h = λ e. socket_lem s false _ s' h (sym e)
  shut-Settled _ temp_ec cancel_ec s s' h = λ e. socket_lem s false _ s' h (sym e)

  pub listed-Settled :
      (ec : ErrorCode) (s s' : Session S.Db)
      → IsIdle s
      → handle_data_send_callback ec s ≡ s'
      → Settled s s'
  unfolding handle_data_send_callback data_close close_open
  listed-Settled ec s s' h e = record {
    world_kept = ground arith;
    guest = ground arith;
    idle =
        idles h (ground (arith, h.no_list)) (ground arith) (ground arith) (ground arith)
          (ground arith);
  }

  pub Settled-IsQuiet : {s s' : Session S.Db} → IsQuiet s → Settled s s' → IsQuiet s'
  Settled-IsQuiet q settled = record { guest = settled.guest ∙ q.guest; idle = settled.idle }
