-- ===== src/Server/Isolation.antt =====
-- src/ftp/server.cpp: several sessions over one database, whose completions come in any order.
use asio_ftp.Base.{
  ℕ, zero, suc, ◌≡◌, ◌⊎◌, inl, inr, refl, ap, subst, ◌∙◌, Bool, true, Option, none, some, List, [],
  ◌∷◌, ◌++◌, Bytes, All, get_elem?, Result, returned, ◌>>=◌, >>=-returned,
}
use asio_ftp.Database.Sqlite.{Sqlite}
use asio_ftp.Database.Schema.{Tables, IsLawful}
use asio_ftp.Database.Users.Lookups.{opens}
use asio_ftp.Session.State.{Session, unauthenticated, ErrorCode}
use asio_ftp.Session.Handler.{Message, handle_control_receive_callback, handle_command, on_received}
use asio_ftp.Session.Commands.{Command, find_command}
use asio_ftp.Session.Login.{handle_command-Guarded}
use asio_ftp.Server.{
  Server, Client, ftp_session, ftps_session, session_of, with_session, replace, sees,
  client_received, received,
}

-- A read of the session at a position completes.
pub record Arrival : Type 0 where
  pub at : ℕ
  pub ec : ErrorCode
  pub buffer : Bytes
  pub bytes_received : ℕ

abbrev pub IsGuest : {Db : Type 0} → Client Db → Type 0
IsGuest c = (session_of c).connection_stage ≡ unauthenticated

module _ (S : Sqlite) (rand : ℕ → ℕ) (can_open : Bytes → Bool) where
  unfoldable pub arrives : List Arrival → Server S.Db → Result (Server S.Db)
  arrives [] v = returned v
  arrives (a ∷ arrivals) v =
      received S rand can_open a.at a.ec a.buffer a.bytes_received v >>= arrives arrivals

module _ {Db : Type 0} where
  All-replace :
      (i : ℕ) (c : Client Db) (clients : List (Client Db))
      → IsGuest c
      → All IsGuest clients
      → All IsGuest (replace i c clients)
  All-replace i c [] g h = tt
  All-replace zero c (_ ∷ clients) g h = (g, h.1)
  All-replace (suc i) c (d ∷ clients) g h = (h.0, All-replace i c clients g h.1)

  elem-IsGuest :
      (i : ℕ) (clients : List (Client Db)) (c : Client Db)
      → All IsGuest clients
      → get_elem? clients i ≡ some c
      → IsGuest c
  elem-IsGuest i [] c h e = cc
  elem-IsGuest zero (d ∷ clients) c h e = let is : d ≡ c = cc in subst IsGuest is h.0
  elem-IsGuest (suc i) (d ∷ clients) c h e = elem-IsGuest i clients c h.1 e

  kept_session : (s : Session Db) (c : Client Db) → session_of (with_session s c) ≡ s
  kept_session s (ftp_session _) = refl
  kept_session s (ftps_session p) = refl

module _ (S : Sqlite) (T : Tables S) (L : IsLawful S T) (rand : ℕ → ℕ)
    (can_open : Bytes → Bool) where
  open T use {password_of}

  -- A read of a session is PASS with the password that is kept for the user whom it had named.
  pub record IsRightPass (a : Arrival) (v : Server S.Db) : Type 0 where
    pub client : Client S.Db
    pub message : Message
    pub there : get_elem? v.clients a.at ≡ some client
    pub parsed : handle_control_receive_callback a.ec a.buffer a.bytes_received ≡ returned message
    pub is_pass : find_command message.command ≡ some Command.pass
    pub opened : opens (password_of (v.world).db (session_of client).userid) message.argument ≡ true

  -- Such a read among the reads, which found no session logged in and nothing changed.
  pub record Entrance (arrivals : List Arrival) (v : Server S.Db) : Type 0 where
    pub before : List Arrival
    pub arrival : Arrival
    pub behind : List Arrival
    pub among : arrivals ≡ before ++ arrival ∷ behind
    pub at : Server S.Db
    pub reached : arrives S rand can_open before v ≡ returned at
    pub guests : All IsGuest at.clients
    pub world_kept : at.world ≡ v.world
    pub right : IsRightPass arrival at

  abbrev pub IsUnchanged : Server S.Db → Server S.Db → Type 0
  IsUnchanged v v' = All IsGuest v'.clients × (v'.world ≡ v.world)

  abbrev pub Outcome : List Arrival → Server S.Db → Server S.Db → Type 0
  Outcome arrivals v v' = IsUnchanged v v' ⊎ Entrance arrivals v

  -- A session that is not logged in, when a read of it completes.
  on_received-Guarded :
      (ec : ErrorCode) (buffer : Bytes) (bytes_received : ℕ) (s s' : Session S.Db)
      → s.connection_stage ≡ unauthenticated
      → on_received S rand can_open ec buffer bytes_received s ≡ returned s'
      → (s'.world ≡ s.world)
        × ((s'.connection_stage ≡ unauthenticated)
            ⊎ ((message : Message) × (handle_control_receive_callback ec buffer bytes_received
                  ≡ returned message)
                × (find_command message.command ≡ some Command.pass)
                × (opens (password_of (s.world).db s.userid) message.argument ≡ true)))
  unfolding on_received
  on_received-Guarded ec buffer bytes_received s s' u e =
      let (message, parsed, ran) =
        >>=-returned (handle_control_receive_callback ec buffer bytes_received)
          (λ m. handle_command S rand can_open m.command m.argument s) e in
      let guarded =
        handle_command-Guarded S T L rand can_open message.command message.argument s s' u ran in
      (
        guarded.world_kept,
        elim guarded.stage [
          | inl still ↦ inl still
          | inr (pass, right) ↦ inr (message, parsed, pass, right)
        ],
      )

  kept-IsUnchanged :
      (v w v' : Server S.Db)
      → (returned w ≡ returned v')
      → All IsGuest w.clients
      → w.world ≡ v.world
      → IsUnchanged v v'
  kept-IsUnchanged v w v' e guests kept =
      let is : w ≡ v' = cc in
      subst (λ (x : Server S.Db). All IsGuest x.clients × (x.world ≡ v.world)) is (guests, kept)

  client-IsUnchanged :
      (a : Arrival) (o : Option (Client S.Db)) (v v' : Server S.Db)
      → All IsGuest v.clients
      → get_elem? v.clients a.at ≡ o
      → client_received S rand can_open a.at a.ec a.buffer a.bytes_received o v ≡ returned v'
      → IsUnchanged v v' ⊎ IsRightPass a v
  unfolding client_received
  client-IsUnchanged a none v v' guests at e = inl (kept-IsUnchanged v v v' e guests refl)
  client-IsUnchanged a (some c) v v' guests at e =
      let s = sees v.world (session_of c) in
      let (s', ran, left) =
        >>=-returned (on_received S rand can_open a.ec a.buffer a.bytes_received s)
          (λ s.
            returned
              (record v { world = s.world; clients = replace a.at (with_session s c) v.clients }))
          e in
      let (kept, stage) =
        on_received-Guarded a.ec a.buffer a.bytes_received s s'
          (elem-IsGuest a.at v.clients c guests at) ran in
      elim stage [
        | inl still ↦ inl (
            kept-IsUnchanged v
              (record v { world = s'.world; clients = replace a.at (with_session s' c) v.clients })
              v' left
              (All-replace a.at (with_session s' c) v.clients
                (ap (λ (x : Session S.Db). x.connection_stage) (kept_session s' c) ∙ still) guests)
              kept)
        | inr (message, parsed, pass, right) ↦ inr (record {
          client = c;
          message = message;
          there = at;
          parsed = parsed;
          is_pass = pass;
          opened = right;
        })
      ]

  -- Under the laws of the tables: where reads of the sessions of a server complete in any order and
  -- return, and no session was logged in, either none is and no row, no file and no random draw has
  -- changed, or one of these reads is PASS with the password that is kept for the user whom its session
  -- had named, and up to that read no session was logged in and nothing had changed.
  pub arrives-Outcome :
      (arrivals : List Arrival) (v v' : Server S.Db)
      → All IsGuest v.clients
      → arrives S rand can_open arrivals v ≡ returned v'
      → Outcome arrivals v v'
  unfolding arrives received
  arrives-Outcome [] v v' guests e = inl (kept-IsUnchanged v v v' e guests refl)
  arrives-Outcome (a ∷ arrivals) v v' guests e =
      let (next, first, rest) =
        >>=-returned (received S rand can_open a.at a.ec a.buffer a.bytes_received v)
          (arrives S rand can_open arrivals) e in
      elim (client-IsUnchanged a (get_elem? v.clients a.at) v next guests refl first) [
        | inr right ↦ inr (record {
          before = [];
          arrival = a;
          behind = arrivals;
          among = refl;
          at = v;
          reached = refl;
          guests = guests;
          world_kept = refl;
          right = right;
        })
        | inl (still, kept) ↦ elim (arrives-Outcome arrivals next v' still rest) [
          | inl (end, kept') ↦ inl (end, kept' ∙ kept)
          | inr later ↦ inr (record {
            before = a ∷ later.before;
            arrival = later.arrival;
            behind = later.behind;
            among = ap (λ arrivals. a ∷ arrivals) later.among;
            at = later.at;
            reached = rw first later.reached;
            guests = later.guests;
            world_kept = later.world_kept ∙ kept;
            right = later.right;
          })
        ]
      ]
