-- ===== src/Session/Reads.antt =====
-- How often a command asks for the next one: each time `control_receive` is called, one read of the
-- control socket waits.
use asio_ftp.Base.{
  ℕ, suc, ◌≡◌, refl, arith, Bool, true, false, some, List, [], ◌∷◌, Bytes, codes, is_empty, same,
  returned, arith, Result,
}
use asio_ftp.Database.Sqlite.{Sqlite}
use asio_ftp.Session.State.{Session, Stage, unauthenticated, logged_in, Action, receiving}
use asio_ftp.Session.Commands.{Command, find_command}
use asio_ftp.Session.Navigation.{
  run_user, run_pass, run_cdup, cwd_answer, cwd_path, run_cwd, run_mkd, remove_at, run_rmd,
  run_dele, run_size,
}
use asio_ftp.Session.Insecure.{run_pasv}
use asio_ftp.Session.Handler.{
  run_opts, run_logged_in, guard_login, dispatch, run_found, handle_command,
}

-- The reads among the actions.
abbrev pub reads : List Action → ℕ
reads [] = 0
reads (receiving ∷ actions) = suc (reads actions)
reads (_ ∷ actions) = reads actions

-- The commands that answer and then read in each of their branches.
abbrev pub is_prompt : Command → Bool
is_prompt Command.quit = false
is_prompt Command.list = false
is_prompt Command.stor = false
is_prompt Command.retr = false
is_prompt Command.size = false
is_prompt c = true

-- The commands that are handled before the stage is looked at.
abbrev is_behind_login : Command → Bool
is_behind_login Command.user = false
is_behind_login Command.pass = false
is_behind_login Command.syst = false
is_behind_login Command.quit = false
is_behind_login c = true

module _ (S : Sqlite) (rand : ℕ → ℕ) (can_open : Bytes → Bool) where
  abbrev OneRead : Session S.Db → Result (Session S.Db) → Type 0
  OneRead s m = (s' : Session S.Db) → m ≡ returned s' → reads s'.out ≡ suc (reads s.out)

  run_user-OneRead : (argument : Bytes) (s : Session S.Db) → OneRead s (run_user S rand argument s)
  unfolding run_user
  run_user-OneRead argument s s' e = ground (arith)

  run_pass-OneRead : (argument : Bytes) (s : Session S.Db) → OneRead s (run_pass S rand argument s)
  unfolding run_pass
  run_pass-OneRead argument s s' e = ground (arith)

  run_cwd-OneRead : (argument : Bytes) (s : Session S.Db) → OneRead s (run_cwd S rand argument s)
  unfolding run_cwd cwd_path cwd_answer
  run_cwd-OneRead argument s s' e = ground (arith)

  run_mkd-OneRead : (argument : Bytes) (s : Session S.Db) → OneRead s (run_mkd S rand argument s)
  unfolding run_mkd
  run_mkd-OneRead argument s s' e = ground (arith)

  run_rmd-OneRead : (argument : Bytes) (s : Session S.Db) → OneRead s (run_rmd S rand argument s)
  unfolding run_rmd remove_at
  run_rmd-OneRead argument s s' e = ground (arith)

  run_dele-OneRead : (argument : Bytes) (s : Session S.Db) → OneRead s (run_dele S rand argument s)
  unfolding run_dele remove_at
  run_dele-OneRead argument s s' e = ground (arith)

  run_logged_in-OneRead :
      (c : Command) (argument : Bytes) (s : Session S.Db)
      → is_behind_login c ≡ true
      → is_prompt c ≡ true
      → OneRead s (run_logged_in S rand can_open c argument s)
  unfolding run_logged_in run_pasv run_cdup run_opts
  run_logged_in-OneRead Command.cwd argument s b p = run_cwd-OneRead argument s
  run_logged_in-OneRead Command.mkd argument s b p = run_mkd-OneRead argument s
  run_logged_in-OneRead Command.rmd argument s b p = run_rmd-OneRead argument s
  run_logged_in-OneRead Command.dele argument s b p = run_dele-OneRead argument s
  run_logged_in-OneRead c argument s b p = λ s' e. ground arith

  guard_login-OneRead :
      (stage : Stage) (c : Command) (argument : Bytes) (s : Session S.Db)
      → is_behind_login c ≡ true
      → is_prompt c ≡ true
      → OneRead s (guard_login S rand can_open stage c argument s)
  unfolding guard_login
  guard_login-OneRead unauthenticated c argument s b p = λ s' e. ground arith
  guard_login-OneRead logged_in c argument s b p = run_logged_in-OneRead c argument s b p

  dispatch-OneRead :
      (c : Command) (argument : Bytes) (s : Session S.Db)
      → is_prompt c ≡ true
      → OneRead s (dispatch S rand can_open c argument s)
  unfolding dispatch
  dispatch-OneRead Command.user argument s p = run_user-OneRead argument s
  dispatch-OneRead Command.pass argument s p = run_pass-OneRead argument s
  dispatch-OneRead Command.quit argument s p = absurd (cc p)
  dispatch-OneRead Command.syst argument s p = λ s' e. ground arith
  dispatch-OneRead c argument s p = guard_login-OneRead s.connection_stage c argument s refl p

  -- A command that is found, other than QUIT, LIST, STOR, RETR and SIZE, and that returns, asks
  -- for exactly one further message, in each of its branches and both stages.
  pub handle_command-OneRead :
      (name argument : Bytes) (c : Command) (s s' : Session S.Db)
      → is_empty name ≡ false
      → find_command name ≡ some c
      → is_prompt c ≡ true
      → handle_command S rand can_open name argument s ≡ returned s'
      → reads s'.out ≡ suc (reads s.out)
  unfolding handle_command run_found
  handle_command-OneRead name argument c s s' named f p =
      rw (named, f) (dispatch-OneRead c argument s p s')

  size_silent :
      (stage : Stage) (argument : Bytes) (s s' : Session S.Db)
      → stage ≡ logged_in
      → guard_login S rand can_open stage Command.size argument s ≡ returned s'
      → reads s'.out ≡ reads s.out
  unfolding guard_login run_logged_in run_size
  size_silent unauthenticated argument s s' h e = absurd (cc h)
  size_silent logged_in argument s s' h e = ground arith

  -- SIZE of a client that is logged in asks for no further message if it returns, whether or not
  -- there is the file.
  pub handle_command-size :
      (argument : Bytes) (s s' : Session S.Db)
      → s.connection_stage ≡ logged_in
      → handle_command S rand can_open (codes "SIZE") argument s ≡ returned s'
      → reads s'.out ≡ reads s.out
  unfolding handle_command find_command run_found same dispatch
  handle_command-size argument s s' l e = size_silent s.connection_stage argument s s' l e
