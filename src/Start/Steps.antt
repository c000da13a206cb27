-- ===== src/Start/Steps.antt =====
-- src/main.cpp: the parts of `init_user_table`.
use asio_ftp.Base.{
  ℕ, ◌≡◌, refl, sym, ap, subst, ◌∙◌, Bool, true, Option, none, some, [], Bytes, same, same_refl,
  if◌then◌else◌, Map, find_key, returned, ◌>>=◌, arith,
}
use asio_ftp.Database.Sqlite.{Sqlite, sqlite_ok}
use asio_ftp.Database.World.{World}
use asio_ftp.Database.Disk.{Disk, directory_exists, file_exists, rename_file, moved}
use asio_ftp.Database.Connection.{
  Calls, storage_file, data_directory, opened_db, optimizations, connect, set_optimizations,
  init_db, check_data_folder_exists, check_db_file_exists,
}
use asio_ftp.Config.Defaults.{ParsedConfig}
use asio_ftp.Start.Main.{
  any_users_changed, users_by_name, backup_file, backup_index, stored, Host, init_sql_db, back_up,
  load_users, add_users, init_user_table,
}
use asio_ftp.Start.Accounts.{
  UsersTable, Accounts, IsOurs, rows_of, creation, credentials, password_named,
}
use asio_ftp.Start.Checked.{check_lem, get_all_lem}
use asio_ftp.Start.Changed.{or_else}
use asio_ftp.Start.Created.{HasFreshIds, texts_of, found, Holds, create_users_lem}

module _ (S : Sqlite) (C : Calls S) (table : S.Db → Option UsersTable) (A : Accounts S C table)
    (rand : ℕ → ℕ) (can_create can_open can_rename : Bytes → Bool) where
  connect_lem :
      (d : Disk S.Db)
      → C.open_code storage_file ≡ sqlite_ok
      → (db : S.Db) × (connect S C d ≡ returned db) × (table db ≡ table (found S C d))
  unfolding connect set_optimizations
  connect_lem d opens =
      let (code, kept) = A.optimized (found S C d) in
      (C.exec_after (found S C d) optimizations, rw (opens, code) refl, kept)

  pub load_lem :
      (d : Disk S.Db)
      → C.open_code storage_file ≡ sqlite_ok
      → IsOurs (table (found S C d))
      → (read : S.Db) × (load_users S C rand can_create can_open can_rename d
          ≡ returned
              (users_by_name (credentials (rows_of (table (found S C d)))) [], stored read d))
        × (table read ≡ some (record { sql = creation; rows = rows_of (table (found S C d)) }))
  unfolding load_users
  load_lem d opens ours =
      let (db, connected, same_table) = connect_lem d opens in
      let (checked, checks, has) = check_lem S C table A db (subst IsOurs (sym same_table) ours) in
      let whole = has ∙ ap (λ o. some (record { sql = creation; rows = rows_of o })) same_table in
      let (read, reads, kept) =
        get_all_lem S C table A checked
          (record { sql = creation; rows = rows_of (table (found S C d)) }) whole
          (texts_of (table (found S C d)) ours) in
      (read, rw (connected, checks) (rw reads refl), kept)

  pub add_lem :
      (users : Map) (h : Host S.Db)
      → C.open_code storage_file ≡ sqlite_ok
      → IsOurs (table (found S C h.disk))
      → HasFreshIds rand users h.draws (rows_of (table (found S C h.disk)))
      → (h' : Host S.Db) × (db : S.Db) × (add_users S C rand can_create can_open can_rename users h
          ≡ returned h')
        × (h'.disk ≡ stored db h.disk)
        × Holds table db (λ n.
          or_else (password_named n (rows_of (table (found S C h.disk)))) (find_key n users))
  unfolding add_users
  add_lem users h opens ours fresh =
      let (db, connected, same_table) = connect_lem h.disk opens in
      let (checked, checks, has) = check_lem S C table A db (subst IsOurs (sym same_table) ours) in
      let whole = has ∙ ap (λ o. some (record { sql = creation; rows = rows_of o })) same_table in
      let w : World S.Db = record { db = checked; files = (h.disk).texts; draws = h.draws } in
      let (w', made, holds) =
        create_users_lem S C table A rand can_create can_open can_rename users w
          (rows_of (table (found S C h.disk))) whole fresh in
      (
        record { disk = stored w'.db h.disk; draws = w'.draws },
        w'.db,
        rw (connected, checks) (rw made refl),
        refl,
        holds,
      )

  abbrev pub away : ℕ → Disk S.Db → Disk S.Db
  away i d = record d {
    texts = moved d.texts storage_file (backup_file i);
    databases = moved d.databases storage_file (backup_file i);
  }

  rename_lem :
      (i : ℕ) (d : Disk S.Db) (db : S.Db)
      → can_rename storage_file ≡ true
      → d.databases storage_file ≡ some db
      → (rename_file can_rename storage_file (backup_file i) d).1 ≡ away i d
  unfolding rename_file file_exists
  rename_lem i d db renames has = ground (arith, renames, has)

  away-none : (i : ℕ) (d : Disk S.Db) → (away i d).databases storage_file ≡ none
  unfolding backup_file same
  away-none i d = refl

  pub back_up_lem :
      (fuel : ℕ) (d : Disk S.Db) (db : S.Db)
      → C.open_code storage_file ≡ sqlite_ok
      → can_rename storage_file ≡ true
      → d.directories data_directory ≡ true
      → d.databases storage_file ≡ some db
      → back_up S C rand can_create can_open can_rename fuel d
        ≡ returned (away (backup_index fuel 1 d) d)
  unfolding back_up init_sql_db init_db check_data_folder_exists check_db_file_exists
      directory_exists
  back_up_lem fuel d db opens renames there has =
      rw (rename_lem (backup_index fuel 1 d) d db renames has, there, opens) refl

  pub found-stored : (read : S.Db) (d : Disk S.Db) → found S C (stored read d) ≡ read
  found-stored read d = rw (same_refl storage_file) refl

  pub found-away : (i : ℕ) (d : Disk S.Db) → table (found S C (away i d)) ≡ none
  found-away i d = ap (λ o. table (opened_db S C o)) (away-none i d) ∙ A.empty

  pub start_lem :
      (fuel : ℕ) (cfg : ParsedConfig) (h : Host S.Db) (db_users : Map) (d : Disk S.Db) (b : Bool)
      → load_users S C rand can_create can_open can_rename h.disk ≡ returned (db_users, d)
      → any_users_changed db_users cfg.users ≡ b
      → init_user_table S C rand can_create can_open can_rename fuel cfg h ≡ (
          (if b then back_up S C rand can_create can_open can_rename fuel d else returned d)
          >>= λ e.
              add_users S C rand can_create can_open can_rename cfg.users (record h { disk = e }))
  unfolding init_user_table
  start_lem fuel cfg h db_users d b loaded decided = rw (loaded, decided) refl
