-- ===== src/Start/Synced.antt =====
-- src/main.cpp: the users in the table after `init_user_table` are those of the configuration.
use asio_ftp.Base.{
  ℕ, ◌≡◌, refl, sym, ap, subst, ◌∙◌, Bool, true, false, Option, none, some, List, [], Bytes,
  same_refl, if◌then◌else◌, Bool-cases, Option-cases, inl, inr, Map, find_key, Result, returned,
}
use asio_ftp.Database.Sqlite.{Sqlite, sqlite_ok}
use asio_ftp.Database.Schema.{UserRow}
use asio_ftp.Database.Disk.{Disk}
use asio_ftp.Database.Connection.{Calls, storage_file, data_directory}
use asio_ftp.Config.Defaults.{ParsedConfig}
use asio_ftp.Start.Main.{
  any_users_changed, users_by_name, backup_index, stored, Host, add_users, init_user_table,
}
use asio_ftp.Start.Accounts.{
  UsersTable, Accounts, IsOurs, rows_of, creation, credentials, password_named, HasDistinctNames,
}
use asio_ftp.Start.Changed.{or_else, unchanged-IsWithin, users_by_name-find}
use asio_ftp.Start.Created.{HasFreshIds, texts_of, found, Holds, none_before}
use asio_ftp.Start.Steps.{load_lem, add_lem, away, back_up_lem, found-stored, found-away, start_lem}

module _ (S : Sqlite) (C : Calls S) (table : S.Db → Option UsersTable) (A : Accounts S C table)
    (rand : ℕ → ℕ) (can_create can_open can_rename : Bytes → Bool) where
  -- The rows that the users are added to: none after a change.
  abbrev pub rows_before : Map → List UserRow → List UserRow
  rows_before users us =
      if any_users_changed (users_by_name (credentials us) []) users then [] else us

  -- The second half of the start, from a disk whose rows are known.
  abbrev pub Ends : Result (Host S.Db) → Map → Type 0
  Ends r users =
      (h' : Host S.Db) × (db : S.Db) × (r ≡ returned h')
      × ((h'.disk).databases storage_file ≡ some db)
      × Holds table db (λ n. find_key n users)

  add_users-Ends :
      (users : Map) (h : Host S.Db) (o : Option UsersTable)
      → C.open_code storage_file ≡ sqlite_ok
      → table (found S C h.disk) ≡ o
      → IsOurs o
      → HasFreshIds rand users h.draws (rows_of o)
      → ((n : Bytes) → or_else (password_named n (rows_of o)) (find_key n users) ≡ find_key n users)
      → Ends (add_users S C rand can_create can_open can_rename users h) users
  add_users-Ends users h o opens e ours fresh same_passwords =
      let (h', db, added, kept, (rows, has, passwords)) =
        add_lem S C table A rand can_create can_open can_rename users h opens
          (subst IsOurs (sym e) ours)
          (subst (λ x. HasFreshIds rand users h.draws (rows_of x)) (sym e) fresh) in
      (
        h',
        db,
        added,
        ap (λ (x : Disk S.Db). x.databases storage_file) kept ∙ rw (same_refl storage_file) refl,
        (
          rows,
          has,
          λ n.
              passwords n
              ∙ ap (λ x. or_else (password_named n (rows_of x)) (find_key n users)) e
              ∙ same_passwords n,
        ),
      )

  within_passwords :
      (us : List UserRow) (users : Map)
      → HasDistinctNames us
      → any_users_changed (users_by_name (credentials us) []) users ≡ false
      → (n : Bytes) → or_else (password_named n us) (find_key n users) ≡ find_key n users
  unfolding find_key
  within_passwords us users distinct unchanged n = elim (Option-cases (password_named n us)) [
    | inl missing ↦ rw missing refl
    | inr (p, has) ↦ rw has (
        sym (
          unchanged-IsWithin (users_by_name (credentials us) []) users unchanged n p
            (users_by_name-find us [] n distinct ∙ rw has refl)))
  ]

  -- Under the laws of the table of users: where the file of the database can be opened and moved, holds
  -- no table of users or one of the right structure, and the identifiers drawn are fresh, the start
  -- returns, and leaves a table that has exactly the configured users: it gives each name the
  -- configured password, and no other name has one.
  pub init_user_table-synced :
      (fuel : ℕ) (cfg : ParsedConfig) (h : Host S.Db)
      → C.open_code storage_file ≡ sqlite_ok
      → can_rename storage_file ≡ true
      → (h.disk).directories data_directory ≡ true
      → IsOurs (table (found S C h.disk))
      → HasFreshIds rand cfg.users h.draws
          (rows_before cfg.users (rows_of (table (found S C h.disk))))
      → Ends (init_user_table S C rand can_create can_open can_rename fuel cfg h) cfg.users
  init_user_table-synced fuel cfg h opens renames there ours fresh =
      let us = rows_of (table (found S C h.disk)) in
      let (read, loaded, has) =
        load_lem S C table A rand can_create can_open can_rename h.disk opens ours in
      let made : UsersTable = record { sql = creation; rows = us } in
      let d = stored read h.disk in
      let db_users = users_by_name (credentials us) [] in
      elim (Bool-cases (any_users_changed db_users cfg.users)) [
        | inl changed ↦
            let i = backup_index fuel 1 d in
            let (h', db, ends, kept, holds) =
              add_users-Ends cfg.users
                (record h { disk = away S C table A rand can_create can_open can_rename i d }) none
                opens (found-away S C table A rand can_create can_open can_rename i d) tt
                (subst (λ b. HasFreshIds rand cfg.users h.draws (if b then [] else us)) changed
                  fresh)
                (λ n. none_before n (find_key n cfg.users)) in
            (
              h',
              db,
              start_lem S C table A rand can_create can_open can_rename fuel cfg h db_users d true
                    loaded changed
                  ∙ rw
                      (back_up_lem S C table A rand can_create can_open can_rename fuel d read opens
                        renames there (rw (same_refl storage_file) refl))
                      ends,
              kept,
              holds,
            )
        | inr unchanged ↦
            let (h', db, ends, kept, holds) =
              add_users-Ends cfg.users (record h { disk = d }) (some made) opens
                (ap table (found-stored S C table A rand can_create can_open can_rename read h.disk)
                  ∙ has)
                (refl, texts_of (table (found S C h.disk)) ours)
                (subst (λ b. HasFreshIds rand cfg.users h.draws (if b then [] else us)) unchanged
                  fresh)
                (within_passwords us cfg.users (A.distinct read made has) unchanged) in
            (
              h',
              db,
              start_lem S C table A rand can_create can_open can_rename fuel cfg h db_users d false
                    loaded unchanged
                  ∙ ends,
              kept,
              holds,
            )
      ]
