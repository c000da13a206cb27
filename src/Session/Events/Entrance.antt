-- ===== src/Session/Events/Entrance.antt =====
-- How a client comes to be logged in, over any sequence of completions.
use asio_ftp.Base.{
  ℕ, ◌≡◌, refl, ap, ◌∙◌, Bool, true, some, Bytes, returned, inl, inr, ◌⊎◌, >>=-returned,
}
use asio_ftp.Database.Sqlite.{Sqlite}
use asio_ftp.Database.Schema.{Tables, IsLawful}
use asio_ftp.Database.Users.Lookups.{opens}
use asio_ftp.Session.State.{Session, ErrorCode}
use asio_ftp.Session.Commands.{Command, find_command}
use asio_ftp.Session.Handler.{Message, handle_control_receive_callback, on_received}
use asio_ftp.Session.Login.{handle_command-Guarded}
use asio_ftp.Session.Events.{
  Event, message_received, socket_accepted, tls_accepted, tls_shaken, listing_sent, block_received,
  block_sent, tls_shut, Events, append, done, step,
}
use asio_ftp.Session.Events.Quiet.{
  IsQuiet, Settled, accept-Settled, tls_accept-Settled, handshake-Settled, listed-Settled,
  shut-Settled, Settled-IsQuiet, handle_command-KeepsIdle,
}

module _ (S : Sqlite) (T : Tables S) (L : IsLawful S T) (rand : ℕ → ℕ)
    (can_open : Bytes → Bool) where
  open T use {password_of}

  -- The event is a message that is PASS with a password which opens the account of the user who is
  -- named at the state before it.
  pub record IsRightPass {s s' : Session S.Db} (event : Event S rand can_open s s') : Type 0 where
    pub ec : ErrorCode
    pub buffer : Bytes
    pub bytes_received : ℕ
    pub message : Message
    pub ran : on_received S rand can_open ec buffer bytes_received s ≡ returned s'
    pub is_message : event ≡ message_received ec buffer bytes_received ran
    pub parsed : handle_control_receive_callback ec buffer bytes_received ≡ returned message
    pub is_pass : find_command message.command ≡ some Command.pass
    pub opened : opens (password_of (s.world).db s.userid) message.argument ≡ true

  -- Such an event in a sequence, reached with no change to the rows and the files.
  pub record Entrance {s s' : Session S.Db} (events : Events S rand can_open s s') : Type 0 where
    pub at : Session S.Db
    pub after : Session S.Db
    pub before : Events S rand can_open s at
    pub event : Event S rand can_open at after
    pub behind : Events S rand can_open after s'
    pub in_sequence : events ≡ append before (step event behind)
    pub right : IsRightPass event
    pub quiet : IsQuiet at
    pub world_kept : at.world ≡ s.world

  -- What one completion does to a quiet session.
  record Next {s s' : Session S.Db} (event : Event S rand can_open s s') : Type 0 where
    pub world_kept : s'.world ≡ s.world
    pub stage : IsQuiet s' ⊎ IsRightPass event

  Settled-Next :
      {s s' : Session S.Db} (event : Event S rand can_open s s')
      → IsQuiet s
      → Settled S rand can_open s s'
      → Next event
  Settled-Next event q settled = record {
    world_kept = settled.world_kept;
    stage = inl (Settled-IsQuiet S rand can_open q settled);
  }

  message-Next :
      (ec : ErrorCode) (buffer : Bytes) (n : ℕ) (s s' : Session S.Db)
      → IsQuiet s
      → (ran : on_received S rand can_open ec buffer n s ≡ returned s')
      → Next (message_received ec buffer n ran)
  unfolding on_received
  message-Next ec buffer n s s' q ran =
      let (message, parsed, e) = >>=-returned (handle_control_receive_callback ec buffer n) _ ran in
      let guarded =
        handle_command-Guarded S T L rand can_open message.command message.argument s s' q.guest
          e in
      let idle =
        handle_command-KeepsIdle S rand can_open message.command message.argument s q s' e in
      elim guarded.stage [
        | inl still ↦ record {
          world_kept = guarded.world_kept;
          stage = inl (record { guest = still; idle = idle });
        }
        | inr (pass, right) ↦ record {
          world_kept = guarded.world_kept;
          stage = inr (record {
            ec = ec;
            buffer = buffer;
            bytes_received = n;
            message = message;
            ran = ran;
            is_message = refl;
            parsed = parsed;
            is_pass = pass;
            opened = right;
          });
        }
      ]

  Event-Next : (s s' : Session S.Db) → IsQuiet s → (event : Event S rand can_open s s') → Next event
  Event-Next s s' q (message_received ec buffer n e) = message-Next ec buffer n s s' q e
  Event-Next s s' q (socket_accepted ec e) =
      Settled-Next (socket_accepted ec e) q (accept-Settled S rand can_open ec s s' q.idle e)
  Event-Next s s' q (tls_accepted ec e) =
      Settled-Next (tls_accepted ec e) q (tls_accept-Settled S rand can_open ec s s' q.idle e)
  Event-Next s s' q (tls_shaken ec e) =
      Settled-Next (tls_shaken ec e) q (handshake-Settled S rand can_open ec s s' q.idle e)
  Event-Next s s' q (listing_sent ec e) =
      Settled-Next (listing_sent ec e) q (listed-Settled S rand can_open ec s s' q.idle e)
  Event-Next s s' q (block_received ec block written path opened e) =
      absurd (cc (opened, (q.idle).no_upload))
  Event-Next s s' q (block_sent ec f opened e) = absurd (cc (opened, (q.idle).no_download))
  Event-Next s s' q (tls_shut ec temp_ec cancel_ec e) =
      Settled-Next (tls_shut ec temp_ec cancel_ec e) q
        (shut-Settled S rand can_open ec temp_ec cancel_ec s s' q.idle e)

  -- Under the laws of the tables: where messages and completions of the data channel, in any order and
  -- with handlers that return, meet a client that is not logged in and has no transfer pending or
  -- under way, either this is still so and no row, no file and no count of random numbers has changed,
  -- or one of these messages is PASS with the password that is kept for the user identifier that the
  -- session had by then, and up to that message all of this was still so.
  pub Events-Entrance :
      (s s' : Session S.Db) (events : Events S rand can_open s s')
      → IsQuiet s
      → (IsQuiet s' × (s'.world ≡ s.world)) ⊎ Entrance events
  Events-Entrance s _ done q = inl (q, refl)
  Events-Entrance s s' (step {s' = next} event rest) q =
      let first = Event-Next s next q event in
      elim first.stage [
        | inl still ↦ elim (Events-Entrance next s' rest still) [
          | inl (quiet, kept) ↦ inl (quiet, kept ∙ first.world_kept)
          | inr later ↦ inr (record {
            at = later.at;
            after = later.after;
            before = step event later.before;
            event = later.event;
            behind = later.behind;
            in_sequence = ap (λ events. step event events) later.in_sequence;
            right = later.right;
            quiet = later.quiet;
            world_kept = later.world_kept ∙ first.world_kept;
          })
        ]
        | inr right ↦ inr (record {
          at = s;
          after = next;
          before = done;
          event = event;
          behind = rest;
          in_sequence = refl;
          right = right;
          quiet = q;
          world_kept = refl;
        })
      ]
