-- ===== src/Database/Checks.antt =====
-- src/database/users.cpp and src/database/fs_objects.cpp: the creation and the check of a table at the
-- start, and the users as a whole.
use Prim.Native.String.{String}
use asio_ftp.Base.{
  Bool, List, [], ◌∷◌, Bytes, codes, same, is_empty, if◌then◌else◌, Result, returned, thrown,
  runtime_error, out_of_bounds, ◌>>=◌,
}
use asio_ftp.Database.Sqlite.{Sqlite}
use asio_ftp.Database.Connection.{Calls, run_query}

abbrev pub get_all_user_credentials_query : String
get_all_user_credentials_query = "SELECT name, password FROM users"

abbrev pub get_user_table_name_query : String
get_user_table_name_query = "SELECT name FROM sqlite_master WHERE type='table' AND name='users'"

abbrev pub user_table_creation_query : String
user_table_creation_query =
    "CREATE TABLE users (user_id CHAR(64) PRIMARY KEY NOT NULL, name VARCHAR(30) UNIQUE NOT NULL, password VARCHAR(255) NOT NULL)"

abbrev pub check_user_table_structure_query : String
check_user_table_structure_query = "SELECT sql FROM sqlite_master WHERE name = 'users'"

abbrev get_fs_objects_table_name_query : String
get_fs_objects_table_name_query =
    "SELECT name FROM sqlite_master WHERE type='table' AND name='fs_objects'"

abbrev fs_objects_table_creation_query : String
fs_objects_table_creation_query =
    "CREATE TABLE fs_objects (object_id CHAR(64) PRIMARY KEY, name VARCHAR(255) NOT NULL, path VARCHAR(1024) NOT NULL, size BIGINT NOT NULL, modified_time DATETIME NOT NULL DEFAULT CURRENT_TIMESTAMP, is_directory INTEGER NOT NULL, user_id CHAR(64) NOT NULL, FOREIGN KEY (user_id) REFERENCES users (user_id), UNIQUE (name, path) ON CONFLICT IGNORE)"

abbrev check_fs_objects_table_structure_query : String
check_fs_objects_table_structure_query = "SELECT sql FROM sqlite_master WHERE name = 'fs_objects'"

-- `result.size() != 1`, and `result[0]` against the statement that makes the table.
unfoldable pub is_structure : List Bytes → String → Bool
is_structure (sql ∷ []) creation = same sql (codes creation)
is_structure _ creation = Bool.false

pub record Credentials : Type 0 where
  pub name : Bytes
  pub password : Bytes

-- Two texts for each user.
unfoldable pub credentials_of : List Bytes → Result (List Credentials)
credentials_of [] = returned []
credentials_of (name ∷ []) = thrown out_of_bounds
credentials_of (name ∷ password ∷ output) = do
  rest ← credentials_of output
  returned (record { name = name; password = password } ∷ rest)

module _ (S : Sqlite) (C : Calls S) where
  unfoldable pub check_user_table_structure : S.Db → Result S.Db
  check_user_table_structure db = do
    (result, db') ← run_query S C check_user_table_structure_query db
    (if is_structure result user_table_creation_query then returned db' else thrown runtime_error)

  unfoldable pub create_user_table : S.Db → Result S.Db
  create_user_table db = do
    (_, made) ← run_query S C user_table_creation_query db
    check_user_table_structure made

  unfoldable pub check_user_table_exists : S.Db → Result S.Db
  check_user_table_exists db = do
    (db_output, db') ← run_query S C get_user_table_name_query db
    if is_empty db_output then create_user_table db' else check_user_table_structure db'

  unfoldable pub check_fs_objects_table_structure : S.Db → Result S.Db
  check_fs_objects_table_structure db = do
    (db_output, db') ← run_query S C check_fs_objects_table_structure_query db
    (if is_structure db_output fs_objects_table_creation_query
        then returned db'
        else thrown runtime_error)

  unfoldable pub create_fs_objects_table : S.Db → Result S.Db
  create_fs_objects_table db = do
    (_, made) ← run_query S C fs_objects_table_creation_query db
    check_fs_objects_table_structure made

  unfoldable pub check_fs_objects_table_exists : S.Db → Result S.Db
  check_fs_objects_table_exists db = do
    (db_output, db') ← run_query S C get_fs_objects_table_name_query db
    if is_empty db_output then create_fs_objects_table db' else check_fs_objects_table_structure db'

  unfoldable pub get_all_user_credentials : S.Db → Result (List Credentials × S.Db)
  unfolding credentials_of
  get_all_user_credentials db = do
    (db_output, db') ← run_query S C get_all_user_credentials_query db
    all_user_credentials ← credentials_of db_output
    returned (all_user_credentials, db')
