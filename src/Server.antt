-- ===== src/Server.antt =====
-- src/ftp/server.cpp: the check of the TLS files, and the acceptor of control connections. The sessions
-- share the database and the files.
pub mod Accepting
pub mod Isolation
use asio_ftp.Base.{
  zero, suc, get_elem?, ℕ, ℤ, to_unsigned, Bool, true, false, not, Option, none, some, List, [],
  ◌∷◌, ◌++◌, Bytes, codes, if◌then◌else◌, Result, returned, thrown, runtime_error, system_error,
  ◌>>=◌,
}
use asio_ftp.Database.World.{World}
use asio_ftp.Database.Disk.{Disk, directory_exists, file_exists, create_directory}
use asio_ftp.Config.Defaults.{ParsedConfig}
use asio_ftp.Session.State.{Session, ErrorCode, success}
use asio_ftp.Database.Sqlite.{Sqlite}
use asio_ftp.Session.Handler.{on_received}
use asio_ftp.Session.Insecure
use asio_ftp.Session.Secure.Probe
use asio_ftp.Session.Secure.Probe.{SecureSession}

abbrev tls_directory : Bytes
tls_directory = codes "tls"

abbrev tls_files : List Bytes
tls_files = codes "tls/cert.pem" ∷ codes "tls/key.pem" ∷ codes "tls/dh.pem" ∷ []

module _ {Db : Type 0} where
  -- The three checks, one after the other.
  unfoldable check_files : List Bytes → Disk Db → Result (Unit {0})
  check_files [] d = returned tt
  check_files (file ∷ files) d =
      let rest = check_files files d in
      if not (file_exists file d) then thrown runtime_error else rest

  -- The disk behind the check, also where it throws.
  unfoldable check_tls_keys : (Bytes → Bool) → Disk Db → Result (Unit {0}) × Disk Db
  unfolding check_files
  check_tls_keys can_create d =
      if not (directory_exists tls_directory d)
      then (thrown runtime_error, (create_directory can_create tls_directory d).1)
      else (check_files tls_files d, d)

-- A session that the server has made.
pub data Client (Db : Type 0) : Type 0 where
  ftp_session : Session Db → Client Db
  ftps_session : SecureSession Db → Client Db

pub record Server (Db : Type 0) : Type 0 where
  -- The database, the files and the random numbers, which the sessions share.
  pub world : World Db
  pub secure : Bool
  -- The port that the endpoint of the acceptor holds.
  pub port : ℕ
  -- Whether an `async_accept` waits.
  pub accepting : Bool
  pub clients : List (Client Db)

-- An accepted connection: what its socket and the database do at once, and the session that is made.
pub record Connection (Db : Type 0) : Type 0 where
  -- Whether `set_option` succeeds, what `connect` gives to `users` and to `fs_objects`, whether
  -- `listen` succeeds on the data acceptor, and whether the remote endpoint is still known.
  pub is_configured : Bool
  pub users_db : Result Db
  pub objects_db : Result Db
  pub listens : Bool
  pub has_peer : Bool
  pub elapsed : ℕ
  pub available : ℕ
  pub session : Session Db

module _ {Db : Type 0} where
  -- `start_accepting_insecure` and `start_accepting_secure`.
  abbrev pub start_accepting : Server Db → Server Db
  start_accepting v = record v { accepting = true }

  abbrev not_started : ParsedConfig → World Db → Server Db
  not_started cfg w = record {
    world = w;
    secure = cfg.secure;
    port = to_unsigned 16 cfg.port;
    accepting = false;
    clients = [];
  }

  -- The constructor, up to `run`.
  unfoldable server : (Bytes → Bool) → ParsedConfig → Disk Db → World Db → Result (Server Db)
  unfolding check_tls_keys
  server can_create cfg d w =
      if cfg.secure
      then (do _ ← (check_tls_keys can_create d).0; returned (start_accepting (not_started cfg w)))
      else returned (start_accepting (not_started cfg w))

  abbrev pub sees : World Db → Session Db → Session Db
  sees w s = record s { world = w }

  -- `configure_socket`, and what the constructor of a session calls that can throw: the two tables
  -- connect to the database, the data acceptor listens, and the line that is printed asks for the
  -- remote endpoint.
  unfoldable pub constructed : Bool → Result Db → Result Db → Bool → Bool → Result (Unit {0})
  constructed false users_db objects_db listens has_peer = thrown system_error
  constructed true (thrown e) objects_db listens has_peer = thrown e
  constructed true (returned _) (thrown e) listens has_peer = thrown e
  constructed true (returned _) (returned _) false has_peer = thrown system_error
  constructed true (returned _) (returned _) true false = thrown system_error
  constructed true (returned _) (returned _) true true = returned tt

  -- What a new connection becomes. `elapsed` and `available` are what the new session reads at once.
  unfoldable pub new_client : Bool → Connection Db → Client Db
  new_client true c = ftps_session (Probe.start c.elapsed c.available c.session)
  new_client false c = ftp_session (Insecure.start c.session)

  abbrev pub seen_from : World Db → Connection Db → Connection Db
  seen_from w c = record c { session = sees w c.session }

  -- An exception leaves `run`, and the server ends.
  unfoldable pub add_client :
      Result (Unit {0}) → Connection Db → Server Db → Result (Unit {0}) × Server Db
  unfolding new_client
  add_client (thrown e) c v = (thrown e, record v { accepting = false })
  add_client (returned _) c v = (
    returned tt,
    start_accepting (record v {
      accepting = false;
      clients = v.clients ++ new_client v.secure (seen_from v.world c) ∷ [];
    }),
  )

  -- The completion of `async_accept`, and the server behind it, also where it throws. After an error no
  -- other one is started.
  unfoldable pub handle_accept :
      ErrorCode → Connection Db → Server Db → Result (Unit {0}) × Server Db
  unfolding constructed add_client
  handle_accept success c v =
      add_client (constructed c.is_configured c.users_db c.objects_db c.listens c.has_peer) c v
  handle_accept _ c v = (returned tt, record v { accepting = false })

  abbrev pub session_of : Client Db → Session Db
  session_of (ftp_session s) = s
  session_of (ftps_session p) = p.session

  abbrev pub with_session : Session Db → Client Db → Client Db
  with_session s (ftp_session _) = ftp_session s
  with_session s (ftps_session p) = ftps_session (record p { session = s })

  abbrev pub replace : ℕ → Client Db → List (Client Db) → List (Client Db)
  replace i c [] = []
  replace zero c (_ ∷ clients) = c ∷ clients
  replace (suc i) c (d ∷ clients) = d ∷ replace i c clients

module _ (S : Sqlite) (rand : ℕ → ℕ) (can_open : Bytes → Bool) where
  -- A read of one session's commands completes: the session works on what all of them share.
  unfoldable pub client_received :
      ℕ → ErrorCode → Bytes → ℕ → Option (Client S.Db) → Server S.Db → Result (Server S.Db)
  client_received i ec buffer bytes_received none v = returned v
  client_received i ec buffer bytes_received (some c) v = do
    s ← on_received S rand can_open ec buffer bytes_received (sees v.world (session_of c))
    returned (record v { world = s.world; clients = replace i (with_session s c) v.clients })

  unfoldable pub received : ℕ → ErrorCode → Bytes → ℕ → Server S.Db → Result (Server S.Db)
  received i ec buffer bytes_received v =
      client_received i ec buffer bytes_received (get_elem? v.clients i) v
