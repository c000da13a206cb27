-- ===== src/Session/Login.antt =====
-- Who is logged in: `handle_command` before and after the login.
use asio_ftp.Base.{
  ℕ, ◌≡◌, refl, Bool, true, false, Option, none, some, Bytes, codes, is_empty, same, returned,
  Result, Bool-cases, inl, inr, ◌⊎◌, arith, c_string,
}
use asio_ftp.Database.Sqlite.{Sqlite}
use asio_ftp.Database.Schema.{UserRow, Tables, IsLawful}
use asio_ftp.Database.Users.Lookups.{opens, get_id_by_name_lem, check_password_lem}
use asio_ftp.Session.State.{Session, Stage, unauthenticated, logged_in, answer}
use asio_ftp.Session.Commands.{Command, find_command}
use asio_ftp.Session.Navigation.{run_user, run_pass}
use asio_ftp.Session.Handler.{run_found, handle_command, dispatch, guard_login}

module _ (S : Sqlite) (T : Tables S) (L : IsLawful S T) (rand : ℕ → ℕ)
    (can_open : Bytes → Bool) where
  open T use {user_named, password_of}

  -- What may have happened between two states of a session that is not logged in.
  pub record Guarded (c : Option Command) (argument : Bytes) (s s' : Session S.Db) : Type 0 where
    pub world_kept : s'.world ≡ s.world
    pub stage :
        (s'.connection_stage ≡ unauthenticated)
        ⊎ ((c ≡ some Command.pass) × (opens (password_of (s.world).db s.userid) argument ≡ true))

  abbrev AllGuarded : Option Command → Bytes → Session S.Db → Result (Session S.Db) → Type 0
  AllGuarded c argument s m = (s' : Session S.Db) → m ≡ returned s' → Guarded c argument s s'

  keeps :
      (c : Option Command) (argument : Bytes) (s s' : Session S.Db)
      → s'.world ≡ s.world
      → s'.connection_stage ≡ unauthenticated
      → Guarded c argument s s'
  keeps c argument s s' w e = record { world_kept = w; stage = inl e }

  run_user-Guarded :
      (argument : Bytes) (s : Session S.Db)
      → s.connection_stage ≡ unauthenticated
      → AllGuarded (some Command.user) argument s (run_user S rand argument s)
  unfolding run_user
  run_user-Guarded argument s u s' =
      rw (get_id_by_name_lem S T L argument s.world)
        (λ e. keeps _ _ _ _ (ground arith) (ground arith))

  run_pass-Guarded :
      (argument : Bytes) (s : Session S.Db)
      → s.connection_stage ≡ unauthenticated
      → AllGuarded (some Command.pass) argument s (run_pass S rand argument s)
  unfolding run_pass
  run_pass-Guarded argument s u s' =
      rw (check_password_lem S T L s.userid argument s.world)
        (elim (Bool-cases (opens (password_of (s.world).db s.userid) argument)) [
          | inl right ↦ λ e. record { world_kept = ground arith; stage = inr (refl, right) }
          | inr wrong ↦ λ e. keeps _ _ _ _ (ground arith) (ground arith)
        ])

  guard_login-Guarded :
      (stage : Stage) (c : Command) (argument : Bytes) (s : Session S.Db)
      → stage ≡ unauthenticated
      → s.connection_stage ≡ unauthenticated
      → AllGuarded (some c) argument s (guard_login S rand can_open stage c argument s)
  unfolding guard_login
  guard_login-Guarded unauthenticated c argument s h u s' e =
      keeps _ _ _ _ (ground arith) (ground arith)
  guard_login-Guarded logged_in c argument s h u s' e = absurd (cc h)

  dispatch-Guarded :
      (c : Command) (argument : Bytes) (s : Session S.Db)
      → s.connection_stage ≡ unauthenticated
      → AllGuarded (some c) argument s (dispatch S rand can_open c argument s)
  unfolding dispatch
  dispatch-Guarded Command.user argument s u = run_user-Guarded argument s u
  dispatch-Guarded Command.pass argument s u = run_pass-Guarded argument s u
  dispatch-Guarded Command.syst argument s u = λ s' e. keeps _ _ _ _ (ground arith) (ground arith)
  dispatch-Guarded Command.quit argument s u = λ s' e. keeps _ _ _ _ (ground arith) (ground arith)
  dispatch-Guarded c argument s u = guard_login-Guarded s.connection_stage c argument s u u

  run_found-Guarded :
      (o : Option Command) (argument : Bytes) (s : Session S.Db)
      → s.connection_stage ≡ unauthenticated
      → AllGuarded o argument s (run_found S rand can_open o argument s)
  unfolding run_found
  run_found-Guarded none argument s u = λ s' e. keeps _ _ _ _ (ground arith) (ground arith)
  run_found-Guarded (some c) argument s u = dispatch-Guarded c argument s u

  -- Under the laws of the tables, a command that returns, of a client that is not logged in,
  -- changes no row, no file and no count of random numbers, and leaves the client so unless it is
  -- PASS with the password that is kept for the session's user identifier.
  pub handle_command-Guarded :
      (command argument : Bytes) (s s' : Session S.Db)
      → s.connection_stage ≡ unauthenticated
      → handle_command S rand can_open command argument s ≡ returned s'
      → Guarded (find_command command) argument s s'
  unfolding handle_command
  handle_command-Guarded command argument s s' u = elim (Bool-cases (is_empty command)) [
    | inl empty ↦ rw empty (λ e. keeps _ _ _ _ (ground arith) (ground arith))
    | inr named ↦ rw named (run_found-Guarded (find_command command) argument s u s')
  ]

  -- Under the laws of the tables, USER with the name of a user, neither the name nor the user's
  -- identifier empty, returns in any stage: the session's user identifier is that user's from then
  -- on, the stage stays, and no row and no file changes. So a session that is logged in stays
  -- logged in, as the other user.
  pub handle_command-user :
      (name : Bytes) (s : Session S.Db) (v : UserRow)
      → user_named (s.world).db name ≡ some v
      → is_empty name ≡ false
      → is_empty (c_string v.user_id) ≡ false
      → (s' : Session S.Db) × (handle_command S rand can_open (codes "USER") name s ≡ returned s')
        × (s'.userid ≡ c_string v.user_id)
        × (s'.connection_stage ≡ s.connection_stage)
        × (s'.world ≡ s.world)
  unfolding handle_command run_found dispatch run_user find_command same
  handle_command-user name s v known named has_id = (
    answer (codes "331 Username okay, password needed.")
        (record s { userid = c_string v.user_id; username = name }),
    rw (get_id_by_name_lem S T L name s.world, known, named, has_id) refl,
    refl,
    refl,
    refl,
  )
