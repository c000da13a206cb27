-- ===== src/Database/Connection.antt =====
-- src/database/sqlite_wrapper.cpp: opening the database, and `run_query`.
use Prim.Native.String.{String}
use asio_ftp.Base.{
  ℕ, ◌+◌, ◌==◌, Bool, Option, none, some, List, [], ◌∷◌, ◌++◌, Bytes, codes, c_string, length,
  if◌then◌else◌, Result, returned, thrown, runtime_error, ◌>>=◌,
}
use asio_ftp.Database.Sqlite.{Sqlite, sqlite_ok}
use asio_ftp.Database.Disk.{Disk, directory_exists, create_directory}

-- A column that the callback is given, and its name.
pub record Column : Type 0 where
  pub text : Bytes
  pub name : Bytes

-- The calls of SQLite beside those for a statement with parameters: `sqlite3_open`, which gives an
-- empty database where there is none, and `sqlite3_exec`.
pub record Calls (S : Sqlite) : Type 0 where
  pub open_code : Bytes → ℕ
  pub empty_db : S.Db
  pub exec_code : S.Db → String → ℕ
  pub exec_rows : S.Db → String → List (List Column)
  pub exec_after : S.Db → String → S.Db

abbrev pub optimizations : String
optimizations =
    "PRAGMA journal_mode = WAL; PRAGMA synchronous = normal; PRAGMA journal_size_limit = 67108864; PRAGMA mmap_size = 134217728; PRAGMA cache_size = 2000; PRAGMA busy_timeout = 5000;"

abbrev pub data_directory : Bytes
data_directory = codes "data"

abbrev pub storage_file : Bytes
storage_file = codes "data/storage.db"

pub record SqliteContext : Type 0 where
  pub argc : ℕ
  pub argv : List Bytes
  pub col_names : List Bytes

abbrev pub empty_context : SqliteContext
empty_context = record { argc = 0; argv = []; col_names = [] }

-- The loop over the columns.
unfoldable pub push_columns : List Column → SqliteContext → SqliteContext
push_columns [] c = c
push_columns (column ∷ columns) c = push_columns columns (record c {
  argv = c.argv ++ c_string column.text ∷ [];
  col_names = c.col_names ++ c_string column.name ∷ [];
})

-- `sqlite_callback` with a context, for one row.
unfoldable pub sqlite_callback : SqliteContext → List Column → SqliteContext
unfolding push_columns
sqlite_callback c columns = push_columns columns (record c { argc = c.argc + length columns })

-- `sqlite3_exec` calls it once for each row.
unfoldable pub call_back : SqliteContext → List (List Column) → SqliteContext
unfolding sqlite_callback
call_back c [] = c
call_back c (row ∷ rows) = call_back (sqlite_callback c row) rows

module _ (S : Sqlite) (C : Calls S) where
  unfoldable pub run_query : String → S.Db → Result (List Bytes × S.Db)
  unfolding call_back
  run_query sql_query db =
      if C.exec_code db sql_query == sqlite_ok
      then returned
          ((call_back empty_context (C.exec_rows db sql_query)).argv, C.exec_after db sql_query)
      else thrown runtime_error

  unfoldable pub set_optimizations : S.Db → Result S.Db
  set_optimizations db =
      if C.exec_code db optimizations == sqlite_ok
      then returned (C.exec_after db optimizations)
      else thrown runtime_error

  -- The database that is there, or an empty one.
  abbrev pub opened_db : Option S.Db → S.Db
  opened_db none = C.empty_db
  opened_db (some db) = db

  unfoldable pub connect : Disk S.Db → Result S.Db
  unfolding set_optimizations
  connect d =
      if C.open_code storage_file == sqlite_ok
      then set_optimizations (opened_db (d.databases storage_file))
      else thrown runtime_error

  unfoldable pub check_data_folder_exists : (Bytes → Bool) → Disk S.Db → Result (Disk S.Db)
  check_data_folder_exists can_create d =
      if directory_exists data_directory d then returned d else do
        let made = (create_directory can_create data_directory d).1
        (if directory_exists data_directory made then returned made else thrown runtime_error)

  -- Both branches open the database. SQLite makes the file when it is first written to.
  unfoldable pub check_db_file_exists : Disk S.Db → Result (Disk S.Db)
  check_db_file_exists d =
      if C.open_code storage_file == sqlite_ok then returned d else thrown runtime_error

  unfoldable pub init_db : (Bytes → Bool) → Disk S.Db → Result (Disk S.Db)
  unfolding check_data_folder_exists check_db_file_exists
  init_db can_create d = do
    found ← check_data_folder_exists can_create d
    check_db_file_exists found
