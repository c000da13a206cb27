-- ===== src/Session/Secure/Handshake.antt =====
-- src/ftp/secure_session.cpp: what has happened at every point before the control connection is
-- secured, and when the handshake is started.
use asio_ftp.Base.{
  ℕ, suc, ◌≡◌, ◌≤◌, length, All, refl, sym, ap, ◌∙◌, subst, Bool, true, false, Option, some, List,
  [], ◌∷◌, ◌++◌, Bytes, codes, same, if◌then◌else◌, Result, returned, arith,
}
use asio_ftp.Database.World.{World}
use asio_ftp.Session.State.{
  Session, unauthenticated, ErrorCode, success, Action, sent, receiving, timer_waiting, probe_sent,
  probe_receiving, handshaking, handshake_error, crlf,
}
use asio_ftp.Session.Messages.{handle_control_receive_callback-returns}
use asio_ftp.Session.Secure.Overrides.{control_send, control_receive}
use asio_ftp.Session.Secure.Probe.{
  ftp_welcomemessage, implicit_check_interval, SecureSession, Completion, timer_expired, probe_read,
  handshaken, awaited, completes, completed, start, handle_auth, wait_for_implicit,
  on_probe_received, on_handshake, secured, probe_send, probe_receive, start_secure,
}

-- How often the welcome has been written, with TLS or without, and how many reads of commands and
-- messages over TLS there are.
abbrev pub welcome : Bytes
welcome = ftp_welcomemessage ++ crlf

abbrev counts : Bool → ℕ → ℕ
counts b n = if b then suc n else n

unfoldable pub welcomes : List Action → ℕ
welcomes [] = 0
welcomes (sent message ∷ actions) = counts (same message welcome) (welcomes actions)
welcomes (probe_sent message ∷ actions) = counts (same message welcome) (welcomes actions)
welcomes (_ ∷ actions) = welcomes actions

unfoldable pub reads_secured : List Action → ℕ
reads_secured [] = 0
reads_secured (receiving ∷ actions) = suc (reads_secured actions)
reads_secured (_ ∷ actions) = reads_secured actions

abbrev pub Counts : ℕ → ℕ → List Action → Type 0
Counts greeted read out = (welcomes out ≡ greeted) × (reads_secured out ≡ read)

-- A read gives no more bytes than the buffer has.
abbrev pub IsRead : Completion → Type 0
IsRead (probe_read ec buffer bytes_received) = bytes_received ≤ length buffer
IsRead _ = Unit

module _ {Db : Type 0} where
  -- What has happened, by the operation that is awaited.
  abbrev pub Greeted : Option Action → Session Db → Type 0
  Greeted (some (timer_waiting _)) s = Counts 0 0 s.out
  Greeted (some probe_receiving) s = Counts 1 0 s.out
  Greeted (some (handshaking true)) s = Counts 0 0 s.out
  Greeted (some (handshaking false)) s = Counts 1 0 s.out
  Greeted (some handshake_error) s = (reads_secured s.out ≡ 0)
  Greeted (some receiving) s = Counts 1 1 s.out × (s.connection_stage ≡ unauthenticated)
  Greeted _ s = ⊥

  abbrev pub IsGreeted : SecureSession Db → Type 0
  IsGreeted p = Greeted (awaited (p.session).out) p.session

  wait-IsGreeted :
      (elapsed available : ℕ) (p : SecureSession Db)
      → Counts 0 0 (p.session).out
      → IsGreeted (wait_for_implicit elapsed available p)
  unfolding wait_for_implicit probe_send probe_receive start_secure welcomes reads_secured same
  wait-IsGreeted elapsed available p h = ground (arith, h)

  auth-IsGreeted :
      (command argument : Bytes) (p : SecureSession Db)
      → Counts 1 0 (p.session).out
      → IsGreeted (handle_auth command argument p)
  unfolding handle_auth probe_send probe_receive start_secure welcomes reads_secured same
  auth-IsGreeted command argument p h = ground (arith, h)

  secured-IsGreeted :
      (is_implicit : Bool) (s : Session Db)
      → Greeted (some (handshaking is_implicit)) s
      → Greeted (awaited (secured is_implicit s).out) (secured is_implicit s)
  unfolding secured control_send control_receive welcomes reads_secured same
  secured-IsGreeted true s h = ((ap suc h.0, ap suc h.1), refl)
  secured-IsGreeted false s h = ((h.0, ap suc h.1), refl)

  handshake-IsGreeted :
      (is_implicit : Bool) (ec : ErrorCode) (p : SecureSession Db)
      → Greeted (some (handshaking is_implicit)) p.session
      → IsGreeted (on_handshake is_implicit ec p)
  unfolding on_handshake welcomes reads_secured same
  handshake-IsGreeted is_implicit success p h = secured-IsGreeted is_implicit p.session h
  handshake-IsGreeted true _ p h = h.1
  handshake-IsGreeted false _ p h = h.1

  wait-world :
      (elapsed available : ℕ) (p : SecureSession Db)
      → ((wait_for_implicit elapsed available p).session).world ≡ (p.session).world
  unfolding wait_for_implicit probe_send probe_receive start_secure
  wait-world elapsed available p = ground arith

  auth-world :
      (command argument : Bytes) (p : SecureSession Db)
      → ((handle_auth command argument p).session).world ≡ (p.session).world
  unfolding handle_auth probe_send probe_receive start_secure
  auth-world command argument p = ground arith

  handshake-world :
      (is_implicit : Bool) (ec : ErrorCode) (p : SecureSession Db)
      → ((on_handshake is_implicit ec p).session).world ≡ (p.session).world
  unfolding on_handshake secured control_send control_receive
  handshake-world true success p = refl
  handshake-world false success p = refl
  handshake-world is_implicit _ p = refl

  -- A run that returns with its books in order and nothing stored changed.
  abbrev pub Reaches : World Db → Result (SecureSession Db) → Type 0
  Reaches w r = (p : SecureSession Db) × (r ≡ returned p) × IsGreeted p × ((p.session).world ≡ w)

  probe-Reaches :
      (ec : ErrorCode) (buffer : Bytes) (bytes_received : ℕ) (p : SecureSession Db)
      → Counts 1 0 (p.session).out
      → bytes_received ≤ length buffer
      → Reaches (p.session).world (on_probe_received ec buffer bytes_received p)
  unfolding on_probe_received
  probe-Reaches ec buffer bytes_received p g r =
      let (message, e) = handle_control_receive_callback-returns ec buffer bytes_received r in
      (
        handle_auth message.command message.argument p,
        rw e refl,
        auth-IsGreeted message.command message.argument p g,
        auth-world message.command message.argument p,
      )

  completes-Reaches :
      (o : Option Action) (c : Completion) (p : SecureSession Db)
      → awaited (p.session).out ≡ o
      → Greeted o p.session
      → IsRead c
      → Reaches (p.session).world (completes o c p)
  unfolding completes
  completes-Reaches (some (timer_waiting t)) (timer_expired elapsed available) p e g r = (
    wait_for_implicit elapsed available p,
    refl,
    wait-IsGreeted elapsed available p g,
    wait-world elapsed available p,
  )
  completes-Reaches (some probe_receiving) (probe_read ec buffer bytes_received) p e g r =
      probe-Reaches ec buffer bytes_received p g r
  completes-Reaches (some (handshaking is_implicit)) (handshaken ec) p e g r = (
    on_handshake is_implicit ec p,
    refl,
    handshake-IsGreeted is_implicit ec p g,
    handshake-world is_implicit ec p,
  )
  completes-Reaches o c p e g r = (p, refl, subst (λ x. Greeted x p.session) (sym e) g, refl)

  completed-step :
      (cs : List Completion) (p : SecureSession Db)
      → IsGreeted p
      → All IsRead cs
      → Reaches (p.session).world (completed cs p)
  unfolding completed
  completed-step [] p g r = (p, refl, g, refl)
  completed-step (c ∷ cs) p g r =
      let (p', e, g', w) = completes-Reaches (awaited (p.session).out) c p refl g r.0 in
      let (p'', e', g'', w') = completed-step cs p' g' r.1 in (p'', rw e e', g'', w' ∙ w)

  -- From the start of a secure session on, every sequence of completions whose reads fit the buffer
  -- returns, and leaves the rows, the files and the random draws as they were. While the timer or
  -- a handshake that the client began unasked is awaited the welcome has not been written; while a
  -- read without TLS or the handshake after AUTH is awaited it has been written once. No read over
  -- TLS has been started until then. Once the handshake has succeeded the welcome has been written
  -- once, one read over TLS has been started, and the client is not logged in.
  pub completed-IsGreeted :
      (elapsed available : ℕ) (cs : List Completion) (s : Session Db)
      → s.out ≡ []
      → All IsRead cs
      → Reaches s.world (completed cs (start elapsed available s))
  unfolding start welcomes reads_secured
  completed-IsGreeted elapsed available cs s fresh r =
      let p : SecureSession Db = record {
        session = s;
        session_type = codes "FTP ";
        expiry = implicit_check_interval;
      } in
      let (p', e, g, w) =
        completed-step cs (wait_for_implicit elapsed available p)
          (wait-IsGreeted elapsed available p (ap welcomes fresh, ap reads_secured fresh)) r in
      (p', e, g, w ∙ wait-world elapsed available p)
