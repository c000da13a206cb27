-- ===== src/Session/Runs.antt =====
-- Sessions over a sequence of commands: what holds in every state that commands lead to.
use asio_ftp.Base.{ℕ, ◌≡◌, refl, ◌∙◌, Bool, true, Bytes, returned, inl, inr}
use asio_ftp.Helpers.Paths.Inverse.{IsAbsolute}
use asio_ftp.Database.Sqlite.{Sqlite}
use asio_ftp.Database.Schema.{Tables, IsLawful}
use asio_ftp.Database.Users.Lookups.{opens}
use asio_ftp.Session.State.{Session, unauthenticated, logged_in}
use asio_ftp.Session.Handler.{handle_command}
use asio_ftp.Session.Login.{handle_command-Guarded}
use asio_ftp.Session.Directory.{handle_command-IsAbsolute}

-- The states that commands lead to, each of which returns.
pub data Run (S : Sqlite) (rand : ℕ → ℕ) (can_open : Bytes → Bool)
    : Session S.Db → Session S.Db → Type 0 where
  done : {s : Session S.Db} → Run S rand can_open s s
  step :
      {s s' s'' : Session S.Db} (command argument : Bytes)
      → handle_command S rand can_open command argument s ≡ returned s'
      → Run S rand can_open s' s''
      → Run S rand can_open s s''

module _ (S : Sqlite) (rand : ℕ → ℕ) (can_open : Bytes → Bool) where
  -- The working directory is absolute after every sequence of commands that return, if it was so
  -- before.
  pub Run-IsAbsolute :
      (s s' : Session S.Db)
      → Run S rand can_open s s'
      → IsAbsolute s.working_directory
      → IsAbsolute s'.working_directory
  Run-IsAbsolute s _ done h = h
  Run-IsAbsolute s s' (step {s' = next} command argument e rest) h =
      Run-IsAbsolute next s' rest
        (handle_command-IsAbsolute S rand can_open command argument s next h e)

module _ (S : Sqlite) (T : Tables S) (L : IsLawful S T) (rand : ℕ → ℕ)
    (can_open : Bytes → Bool) where
  open T use {password_of}

  -- A state in which a password was given that is kept for the user who was named then, reached with
  -- no change to the rows and the files.
  pub record Admission (s : Session S.Db) : Type 0 where
    pub at : Session S.Db
    pub password : Bytes
    pub before : Run S rand can_open s at
    pub world_kept : at.world ≡ s.world
    pub opened : opens (password_of (at.world).db at.userid) password ≡ true

  -- Under the laws of the tables: where a sequence of commands that return leads a client that is not
  -- logged in to a state where it is, one of them was given the password that is kept for the user
  -- identifier that the session had by then, and no row and no file had changed before.
  pub Run-Admission :
      (s s' : Session S.Db)
      → Run S rand can_open s s'
      → s.connection_stage ≡ unauthenticated
      → s'.connection_stage ≡ logged_in
      → Admission s
  Run-Admission s _ done u l = absurd (cc (u, l))
  Run-Admission s s' (step {s' = next} command argument e rest) u l =
      let guarded = handle_command-Guarded S T L rand can_open command argument s next u e in
      elim guarded.stage [
        | inl still ↦
            let later = Run-Admission next s' rest still l in
            record {
              at = later.at;
              password = later.password;
              before = step command argument e later.before;
              world_kept = later.world_kept ∙ guarded.world_kept;
              opened = later.opened;
            }
        | inr (pass, right) ↦ record {
          at = s;
          password = argument;
          before = done;
          world_kept = refl;
          opened = right;
        }
      ]
