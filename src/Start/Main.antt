-- ===== src/Start/Main.antt =====
-- src/main.cpp: `init_config`, `init_user_table`, `init_fs_objects_table` and what they call. The loop
-- over the names of backups runs on fuel.
use asio_ftp.Base.{
  ℕ, count_while, Bool, true, false, not, none, some, List, [], ◌∷◌, ◌++◌, Bytes, codes, same,
  if◌then◌else◌, Map, find_key, put_key, Result, returned, ◌>>=◌,
}
use asio_ftp.Helpers.Decimal.{to_string}
use asio_ftp.Database.Sqlite.{Sqlite}
use asio_ftp.Database.World.{World}
use asio_ftp.Database.Disk.{Disk, file_exists, rename_file}
use asio_ftp.Database.Connection.{Calls, storage_file, connect, init_db}
use asio_ftp.Database.Checks.{
  Credentials, check_user_table_exists, check_fs_objects_table_exists, get_all_user_credentials,
}
use asio_ftp.Database.Users.{create_user}
use asio_ftp.Config.Json.{Json}
use asio_ftp.Config.Defaults.{ParsedConfig}
use asio_ftp.Config.Reader.{read_json_config}

-- `any_users_changed`
unfoldable pub any_users_changed : Map → Map → Bool
any_users_changed [] config_users = false
any_users_changed (db_user ∷ db_users) config_users =
    let rest = any_users_changed db_users config_users in
    elim (find_key db_user.key config_users) [
      | none ↦ true
      | some password ↦ if not (same password db_user.value) then true else rest
    ]

-- `db_users[user.name] = user.password` for each user.
unfoldable pub users_by_name : List Credentials → Map → Map
users_by_name [] db_users = db_users
users_by_name (user ∷ users) db_users =
    users_by_name users (put_key user.name user.password db_users)

unfoldable pub backup_file : ℕ → Bytes
backup_file i = codes "data/old_storage" ++ to_string i ++ codes ".db"

-- `while (fs_handler::file_exists(...)) i++;`
unfoldable pub backup_index : {Db : Type 0} → ℕ → ℕ → Disk Db → ℕ
backup_index fuel i d = count_while (λ i. file_exists (backup_file i) d) fuel i

-- What a connection has written is in the file.
abbrev pub stored : {Db : Type 0} → Db → Disk Db → Disk Db
stored db d = record d { databases = λ p. if same p storage_file then some db else d.databases p }

-- The disk, and the random numbers drawn so far.
pub record Host (Db : Type 0) : Type 0 where
  pub disk : Disk Db
  pub draws : ℕ

module _ (S : Sqlite) (C : Calls S) (rand : ℕ → ℕ)
    (can_create can_open can_rename : Bytes → Bool) where
  unfoldable init_config : (J : Json) → Host S.Db → Result (ParsedConfig × Host S.Db)
  init_config J h = do
    (cfg, d) ← read_json_config J can_create can_open h.disk
    returned (cfg, record h { disk = d })

  unfoldable pub init_sql_db : Disk S.Db → Result (Disk S.Db)
  init_sql_db d = init_db S C can_create d

  -- A file of users that differ is moved away. Whether the move succeeds is not looked at.
  unfoldable pub back_up : ℕ → Disk S.Db → Result (Disk S.Db)
  back_up fuel d =
      init_sql_db (rename_file can_rename storage_file (backup_file (backup_index fuel 1 d)) d).1

  -- The loop over `cfg.users`.
  unfoldable pub create_users : Map → World S.Db → Result (World S.Db)
  create_users [] w = returned w
  create_users (user ∷ users) w = create_user S rand user.key user.value w >>= create_users users

  -- The first block: the users there are.
  unfoldable pub load_users : Disk S.Db → Result (Map × Disk S.Db)
  load_users d = do
    db ← connect S C d
    checked ← check_user_table_exists S C db
    (all_user_credential, read) ← get_all_user_credentials S C checked
    returned (users_by_name all_user_credential [], stored read d)

  -- Behind the move: the users that are configured are made where they are not there.
  unfoldable pub add_users : Map → Host S.Db → Result (Host S.Db)
  add_users users h = do
    db ← connect S C h.disk
    checked ← check_user_table_exists S C db
    w ← create_users users (record { db = checked; files = (h.disk).texts; draws = h.draws })
    returned (record { disk = stored w.db h.disk; draws = w.draws })

  unfoldable pub init_user_table : ℕ → ParsedConfig → Host S.Db → Result (Host S.Db)
  init_user_table fuel cfg h = do
    (db_users, loaded) ← load_users h.disk
    d ← (if any_users_changed db_users cfg.users then back_up fuel loaded else returned loaded)
    add_users cfg.users (record h { disk = d })

  unfoldable init_fs_objects_table : Disk S.Db → Result (Disk S.Db)
  init_fs_objects_table d = do
    db ← connect S C d
    checked ← check_fs_objects_table_exists S C db
    returned (stored checked d)

  -- `main`, up to the server that it starts with the settings.
  unfoldable prepare : ℕ → Json → Host S.Db → Result (ParsedConfig × Host S.Db)
  prepare fuel J h = do
    (cfg, configured) ← init_config J h
    d ← init_sql_db configured.disk
    with_users ← init_user_table fuel cfg (record configured { disk = d })
    ready ← init_fs_objects_table with_users.disk
    returned (cfg, record with_users { disk = ready })
