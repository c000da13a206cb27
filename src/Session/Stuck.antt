-- ===== src/Session/Stuck.antt =====
-- RETR and STOR on their branches with no transfer, where a session waits for too much or for nothing.
use asio_ftp.Base.{
  ℕ, suc, ◌≡◌, refl, ap, sym, ◌∙◌, Bool, true, false, [], ◌∷◌, Bytes, codes, is_empty, same,
  returned, arith,
}
use asio_ftp.Helpers.Paths.{slash, get_basename, get_parent_path}
use asio_ftp.Database.Sqlite.{Sqlite}
use asio_ftp.Database.Schema.{Tables, IsLawful}
use asio_ftp.Database.Objects.Lookup.{HasIds, owns, get_object_lem, is_empty-seen_by}
use asio_ftp.Session.State.{Session, Stage, unauthenticated, logged_in, answer}
use asio_ftp.Session.Commands.{Command, find_command}
use asio_ftp.Session.Navigation.{parse_retr_argument, no_arguments}
use asio_ftp.Session.Transfer.{
  data_close, data_send_file, send_contents, data_async_send, send_from, read_block,
}
use asio_ftp.Session.Insecure.{run_stor, run_retr, store_path, parent_missing}
use asio_ftp.Session.Handler.{handle_command, run_found, dispatch, guard_login, run_logged_in}
use asio_ftp.Session.Reads.{reads}

module _ (S : Sqlite) (rand : ℕ → ℕ) (can_open : Bytes → Bool) where
  run_retr-reads : (s : Session S.Db) → reads (run_retr S rand can_open s).out ≡ suc (reads s.out)
  unfolding run_retr data_send_file send_contents data_async_send send_from read_block data_close
  run_retr-reads s = ground arith

  retr_twice :
      (stage : Stage) (s s' : Session S.Db)
      → stage ≡ logged_in
      → guard_login S rand can_open stage Command.retr [] s ≡ returned s'
      → reads s'.out ≡ suc (suc (reads s.out))
  unfolding guard_login run_logged_in parse_retr_argument
  retr_twice unauthenticated s s' h e = absurd (cc h)
  retr_twice logged_in s s' h e =
      let same_end : run_retr S rand can_open (answer no_arguments s) ≡ s' = cc e in
      ap (λ (x : Session S.Db). reads x.out) (sym same_end) ∙ run_retr-reads (answer no_arguments s)

  -- RETR with no argument, of a client that is logged in, asks for two further messages.
  pub handle_command-retr :
      (s s' : Session S.Db)
      → s.connection_stage ≡ logged_in
      → handle_command S rand can_open (codes "RETR") [] s ≡ returned s'
      → reads s'.out ≡ suc (suc (reads s.out))
  unfolding handle_command run_found dispatch find_command same
  handle_command-retr s s' l e = retr_twice s.connection_stage s s' l e

module _ (S : Sqlite) (T : Tables S) (L : IsLawful S T) (rand : ℕ → ℕ)
    (can_open : Bytes → Bool) where
  parent_missing_lem :
      (s : Session S.Db) (path : Bytes)
      → HasIds S T (s.world).db
      → same (get_parent_path path) (slash ∷ []) ≡ false
      → owns S T s.userid
          (get_basename (get_parent_path path))
          (get_parent_path (get_parent_path path))
          (s.world).db
        ≡ false
      → parent_missing S rand can_open s.userid path s.world ≡ returned (true, s.world)
  unfolding parent_missing
  parent_missing_lem s path ids below missing =
      let directory = get_parent_path path in
      rw
        (
          below,
          get_object_lem S T L s.userid (get_basename directory) (get_parent_path directory)
              s.world,
          is_empty-seen_by S T s.userid (get_basename directory) (get_parent_path directory)
              (s.world).db ids,
          missing,
        )
        refl

  -- Under the laws of the tables, with well-made identifiers in the rows and no upload pending: STOR
  -- of a path in a directory that the user does not have, and that is not the root, gives no answer
  -- and asks for no further message. It only leaves the path behind as a pending upload.
  pub run_stor-missing :
      (argument : Bytes) (s : Session S.Db)
      → HasIds S T (s.world).db
      → is_empty argument ≡ false
      → is_empty s.pending_write_file ≡ true
      → let path = store_path s.working_directory argument in
        same (get_parent_path path) (slash ∷ []) ≡ false
        → owns S T s.userid
            (get_basename (get_parent_path path))
            (get_parent_path (get_parent_path path))
            (s.world).db
          ≡ false
        → run_stor S rand can_open argument s ≡ returned (record s { pending_write_file = path })
  unfolding run_stor
  run_stor-missing argument s ids given idle below missing =
      rw
        (
          given,
          idle,
          parent_missing_lem s (store_path s.working_directory argument) ids below missing,
        )
        refl
