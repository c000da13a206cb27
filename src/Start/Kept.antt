-- ===== src/Start/Kept.antt =====
-- src/main.cpp: what becomes of a database whose users differ from the configured ones.
use asio_ftp.Base.{
  ℕ, suc, ◌≤◌, ◌<◌, ◌≡◌, refl, sym, ap, subst, ◌∙◌, Bool, true, false, Option, none, some, List, [],
  Bytes, same, same_refl, if◌then◌else◌, find_key, returned, arith,
}
use asio_ftp.Database.Sqlite.{Sqlite, sqlite_ok}
use asio_ftp.Database.Schema.{UserRow}
use asio_ftp.Database.Disk.{Disk, directory_exists, file_exists, rename_file}
use asio_ftp.Database.Connection.{
  Calls, storage_file, data_directory, init_db, check_data_folder_exists, check_db_file_exists,
}
use asio_ftp.Config.Defaults.{ParsedConfig}
use asio_ftp.Start.Main.{
  any_users_changed, users_by_name, backup_file, backup_index, stored, Host, init_sql_db, back_up,
  init_user_table,
}
use asio_ftp.Start.Accounts.{
  UsersTable, Accounts, IsOurs, rows_of, creation, credentials, password_named,
}
use asio_ftp.Start.Backup.{is_taken, backup_index-IsFirst}
use asio_ftp.Start.Changed.{or_else}
use asio_ftp.Start.Created.{HasFreshIds, texts_of, found, Holds}
use asio_ftp.Start.Steps.{load_lem, add_lem, away, back_up_lem, found-stored, found-away, start_lem}

module _ {Db : Type 0} where
  -- What a start with a backup leaves on the disk.
  pub record MovedOnly (i : ℕ) (old new : Db) (before after : Disk Db) : Type 0 where
    pub databases :
        (p : Bytes)
        → after.databases p ≡ (
            if same p storage_file
            then some new
            else if same p (backup_file i)
            then some old
            else before.databases p)
    pub texts :
        (p : Bytes)
        → after.texts p ≡ (
            if same p (backup_file i)
            then before.texts storage_file
            else if same p storage_file
            then none
            else before.texts p)
    pub directories : after.directories ≡ before.directories

module _ (S : Sqlite) (C : Calls S) (table : S.Db → Option UsersTable) (A : Accounts S C table)
    (rand : ℕ → ℕ) (can_create can_open can_rename : Bytes → Bool) where
  -- The rows that a start finds, and the users that it compares with the configured ones.
  abbrev pub standing : Host S.Db → List UserRow
  standing h = rows_of (table (found S C h.disk))

  abbrev pub has_changed : ParsedConfig → Host S.Db → Bool
  has_changed cfg h = any_users_changed (users_by_name (credentials (standing h)) []) cfg.users

  -- A start that returns, and what stands in the file of the database then.
  abbrev pub Leaves : ℕ → ParsedConfig → Host S.Db → (Host S.Db → S.Db → Type 0) → Type 0
  Leaves fuel cfg h P =
      (h' : Host S.Db) × (db : S.Db) × (init_user_table S C rand can_create can_open can_rename fuel
          cfg h
        ≡ returned h')
      × ((h'.disk).databases storage_file ≡ some db)
      × P h' db

  unmoved :
      (fuel : ℕ) (d : Disk S.Db)
      → C.open_code storage_file ≡ sqlite_ok
      → can_rename storage_file ≡ false
      → d.directories data_directory ≡ true
      → back_up S C rand can_create can_open can_rename fuel d ≡ returned d
  unfolding back_up init_sql_db init_db check_data_folder_exists check_db_file_exists
      directory_exists rename_file
  unmoved fuel d opens stays there = rw (stays, there, opens) refl

  not_moved :
      (b : Bool) (fuel : ℕ) (d : Disk S.Db)
      → C.open_code storage_file ≡ sqlite_ok
      → can_rename storage_file ≡ false
      → d.directories data_directory ≡ true
      → (if b then back_up S C rand can_create can_open can_rename fuel d else returned d)
        ≡ returned d
  not_moved true fuel d opens stays there = unmoved fuel d opens stays there
  not_moved false fuel d opens stays there = refl

  -- Where the file of the database cannot be moved, which is not noticed, the start returns all the
  -- same: each user of the table keeps the password it had, and stays where it is no longer
  -- configured; the configured users are made beside them.
  pub init_user_table-unmoved :
      (fuel : ℕ) (cfg : ParsedConfig) (h : Host S.Db)
      → C.open_code storage_file ≡ sqlite_ok
      → can_rename storage_file ≡ false
      → (h.disk).directories data_directory ≡ true
      → IsOurs (table (found S C h.disk))
      → HasFreshIds rand cfg.users h.draws (standing h)
      → Leaves fuel cfg h (λ h' db.
        Holds table db (λ n. or_else (password_named n (standing h)) (find_key n cfg.users)))
  init_user_table-unmoved fuel cfg h opens stays there ours fresh =
      let (read, loaded, has) =
        load_lem S C table A rand can_create can_open can_rename h.disk opens ours in
      let d = stored read h.disk in
      let e : table (found S C d) ≡ some (record { sql = creation; rows = standing h }) =
        ap table (found-stored S C table A rand can_create can_open can_rename read h.disk) ∙ has in
      let (h', db, added, kept, (rows, has', passwords)) =
        add_lem S C table A rand can_create can_open can_rename cfg.users (record h { disk = d })
          opens (subst IsOurs (sym e) (refl, texts_of (table (found S C h.disk)) ours))
          (subst (λ o. HasFreshIds rand cfg.users h.draws (rows_of o)) (sym e) fresh) in
      (
        h',
        db,
        start_lem S C table A rand can_create can_open can_rename fuel cfg h
              (users_by_name (credentials (standing h)) []) d (has_changed cfg h) loaded refl
            ∙ rw (not_moved (has_changed cfg h) fuel d opens stays there) added,
        ap (λ (x : Disk S.Db). x.databases storage_file) kept ∙ rw (same_refl storage_file) refl,
        (
          rows,
          has',
          λ n.
              passwords n
              ∙ ap (λ o. or_else (password_named n (rows_of o)) (find_key n cfg.users)) e,
        ),
      )

  -- The name of a backup is never that of the database.
  taken_stored : (db : S.Db) (d : Disk S.Db) (i : ℕ) → is_taken (stored db d) i ≡ is_taken d i
  unfolding file_exists backup_file same
  taken_stored db d i = refl

  kept_at :
      (i : ℕ) (db read : S.Db) (d : Disk S.Db)
      → (stored db
            (away S C table A rand can_create can_open can_rename i (stored read d))).databases
          (backup_file i)
        ≡ some read
  unfolding backup_file same
  kept_at i db read d = rw (same_refl (backup_file i)) refl

  moved-MovedOnly :
      (i : ℕ) (read db : S.Db) (d : Disk S.Db)
      → MovedOnly i read db d
          (stored db (away S C table A rand can_create can_open can_rename i (stored read d)))
  moved-MovedOnly i read db d = record {
    databases = λ p. ground (arith, same_refl storage_file);
    texts = λ p. refl;
    directories = refl;
  }

  -- Under the laws of the table of users, where the database opens, the directory `data` is there, the
  -- table is ours or not there yet, and the identifiers drawn are fresh: where a user of the table is
  -- not configured with the same password, and the file of the database can be moved, the start
  -- returns. The old database, with the rows that it had, stands under a name of a backup under which
  -- nothing stood, the first such name, if the search for it has fuel for a free one. A new database
  -- stands in its place, and nothing else on the disk has changed: every other path leads to the text
  -- or the database that it led to, and the directories are the same.
  pub init_user_table-kept :
      (fuel j : ℕ) (cfg : ParsedConfig) (h : Host S.Db)
      → C.open_code storage_file ≡ sqlite_ok
      → can_rename storage_file ≡ true
      → (h.disk).directories data_directory ≡ true
      → IsOurs (table (found S C h.disk))
      → HasFreshIds rand cfg.users h.draws []
      → has_changed cfg h ≡ true
      → is_taken h.disk (suc j) ≡ false
      → j ≤ fuel
      → (h' : Host S.Db) × (i : ℕ) × (old : S.Db) × (init_user_table S C rand can_create can_open
            can_rename fuel cfg h
          ≡ returned h')
        × (is_taken h.disk i ≡ false)
        × ((k : ℕ) → 1 ≤ k → k < i → is_taken h.disk k ≡ true)
        × ((h'.disk).databases (backup_file i) ≡ some old)
        × (table old ≡ some (record { sql = creation; rows = standing h }))
        × (new : S.Db) × MovedOnly i old new h.disk h'.disk
  init_user_table-kept fuel j cfg h opens renames there ours fresh changed free enough =
      let (read, loaded, has) =
        load_lem S C table A rand can_create can_open can_rename h.disk opens ours in
      let d = stored read h.disk in
      let i = backup_index fuel 1 d in
      let ((unused, first, before), bound) =
        backup_index-IsFirst d fuel 1 (suc j) (taken_stored read h.disk (suc j) ∙ free)
          (omega arith) (omega (arith, enough)) in
      let none_there = found-away S C table A rand can_create can_open can_rename i d in
      let (h', db, added, kept, holds) =
        add_lem S C table A rand can_create can_open can_rename cfg.users
          (record h { disk = away S C table A rand can_create can_open can_rename i d }) opens
          (subst IsOurs (sym none_there) tt)
          (subst (λ o. HasFreshIds rand cfg.users h.draws (rows_of o)) (sym none_there) fresh) in
      (
        h',
        i,
        read,
        start_lem S C table A rand can_create can_open can_rename fuel cfg h
              (users_by_name (credentials (standing h)) []) d true loaded changed
            ∙ rw
                (back_up_lem S C table A rand can_create can_open can_rename fuel d read opens
                  renames there (rw (same_refl storage_file) refl))
                added,
        sym (taken_stored read h.disk i) ∙ unused,
        λ k a b. sym (taken_stored read h.disk k) ∙ before k a b,
        ap (λ (x : Disk S.Db). x.databases (backup_file i)) kept ∙ kept_at i db read h.disk,
        has,
        db,
        subst (MovedOnly i read db h.disk) (sym kept) (moved-MovedOnly i read db h.disk),
      )
