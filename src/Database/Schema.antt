-- ===== src/Database/Schema.antt =====
-- src/database/users.hpp and src/database/fs_objects.hpp: the statements, and what SQLite documents
-- of them for the two tables. A table is seen through its keys.
use Prim.Native.String.{String}
use asio_ftp.Base.{
  ℕ, ◌≡◌, ◌≢◌, Bool, true, not, ◌&&◌, Option, none, some, List, [], ◌∷◌, ◌++◌, Bytes, same,
  if◌then◌else◌, codes,
}
use asio_ftp.Helpers.Decimal.{to_string}
use asio_ftp.Database.Sqlite.{Sqlite, Runs}

abbrev pub get_id_by_name_query : String
get_id_by_name_query = "SELECT user_id FROM users WHERE name = ?"

abbrev pub get_password_by_id_query : String
get_password_by_id_query = "SELECT password FROM users WHERE user_id = ?"

abbrev pub create_user_query : String
create_user_query = "INSERT INTO users (user_id, name, password) VALUES (?, ?, ?)"

abbrev pub get_object_query : String
get_object_query =
    "SELECT object_id, name, path, size, modified_time, is_directory FROM fs_objects WHERE user_id = ? AND name = ? AND path = ?"

abbrev pub get_objects_by_path_query : String
get_objects_by_path_query =
    "SELECT object_id, name, path, size, modified_time, is_directory FROM fs_objects WHERE user_id = ? AND path = ?"

abbrev pub create_object_query : String
create_object_query =
    "INSERT INTO fs_objects (object_id, name, path, size, is_directory, user_id) VALUES (?, ?, ?, ?, ?, ?)"

abbrev pub update_object_size_query : String
update_object_size_query =
    "UPDATE fs_objects SET size = ?, modified_time = CURRENT_TIMESTAMP WHERE object_id = ?"

abbrev pub get_object_ids_with_path_prefix_query : String
get_object_ids_with_path_prefix_query =
    "SELECT object_id FROM fs_objects WHERE user_id = ? AND path LIKE ?"

abbrev pub delete_object_ids_with_path_prefix_query : String
delete_object_ids_with_path_prefix_query =
    "DELETE FROM fs_objects WHERE user_id = ? AND path LIKE ?"

abbrev pub delete_object_query : String
delete_object_query = "DELETE FROM fs_objects WHERE object_id = ?"

-- A row of `users` and a row of `fs_objects`.
pub record UserRow : Type 0 where
  pub user_id : Bytes
  pub name : Bytes
  pub password : Bytes

pub record ObjectRow : Type 0 where
  pub object_id : Bytes
  pub name : Bytes
  pub path : Bytes
  pub size : Bytes
  pub modified_time : Bytes
  pub is_directory : Bool
  pub user_id : Bytes

-- The column of a Boolean, which `std::to_string` writes as a number.
abbrev pub flag : Bool → Bytes
flag b = if b then codes "1" else codes "0"

-- The columns that the two queries for objects select.
abbrev pub columns : ObjectRow → List Bytes
columns r = r.object_id ∷ r.name ∷ r.path ∷ r.size ∷ r.modified_time ∷ flag r.is_directory ∷ []

-- The table by name and path, which `UNIQUE (name, path)` makes a key.
abbrev pub Table : Type 0
Table = Bytes → Bytes → Option ObjectRow

abbrev pub put_row : Table → ObjectRow → Table
put_row t r n p = if same n r.name && same p r.path then some r else t n p

-- The rows that pass a test, and the rows changed by a function.
abbrev pub keep_row : (ObjectRow → Bool) → Option ObjectRow → Option ObjectRow
keep_row keep none = none
keep_row keep (some r) = if keep r then some r else none

abbrev pub change_row : (ObjectRow → ObjectRow) → Option ObjectRow → Option ObjectRow
change_row f none = none
change_row f (some r) = some (f r)

abbrev pub keep_rows : (ObjectRow → Bool) → Table → Table
keep_rows keep t n p = keep_row keep (t n p)

abbrev pub change_rows : (ObjectRow → ObjectRow) → Table → Table
change_rows f t n p = change_row f (t n p)

abbrev pub owned_columns : Bytes → Option ObjectRow → List (List Bytes)
owned_columns u none = []
owned_columns u (some r) = if same r.user_id u then columns r ∷ [] else []

abbrev pub with_size : Bytes → Bytes → Bytes → ObjectRow → ObjectRow
with_size id size now r =
    if same r.object_id id then record r { size = size; modified_time = now } else r

-- The parameters of the INSERT of an object.
abbrev pub object_params : Bytes → Bytes → Bytes → ℕ → Bool → Bytes → List Bytes
object_params id n p size directory u = id ∷ n ∷ p ∷ to_string size ∷ flag directory ∷ u ∷ []

abbrev pub percent : ℕ
percent = b'%'

-- What the sources rely on. The views say what the tables hold. The laws are of one connection, with
-- no lock held by another one, and of texts with no NUL.
pub record Tables (S : Sqlite) : Type 0 where
  pub object_at : S.Db → Table
  pub user_named : S.Db → Bytes → Option UserRow
  pub password_of : S.Db → Bytes → Option Bytes
  -- CURRENT_TIMESTAMP, and the operator LIKE on a text and a pattern.
  pub now : S.Db → Bytes
  pub like : Bytes → Bytes → Bool

module _ (S : Sqlite) (T : Tables S) where
  open S use {Db, rows, after}
  open T use {object_at, user_named, password_of, now, like}

  abbrev pub IsFresh : Db → Bytes → Type 0
  IsFresh db id = (n p : Bytes) (r : ObjectRow) → object_at db n p ≡ some r → r.object_id ≢ id

  -- The row that the INSERT of an object makes.
  abbrev pub new_row : Db → Bytes → Bytes → Bytes → ℕ → Bool → Bytes → ObjectRow
  new_row db id n p size directory u = record {
    object_id = id;
    name = n;
    path = p;
    size = to_string size;
    modified_time = now db;
    is_directory = directory;
    user_id = u;
  }

  pub record IsLawful : Type 0 where
    -- A row stands under its own name and path.
    pub keyed :
        (db : Db) (n p : Bytes) (r : ObjectRow)
        → object_at db n p ≡ some r
        → (r.name ≡ n) × (r.path ≡ p)
    -- PRIMARY KEY: an identifier stands in one row.
    pub primary_key :
        (db : Db) (n p n' p' : Bytes) (r r' : ObjectRow)
        → object_at db n p ≡ some r
        → object_at db n' p' ≡ some r'
        → r.object_id ≡ r'.object_id
        → (n ≡ n') × (p ≡ p')
    pub runs_get_object : (db : Db) (u n p : Bytes) → Runs S db get_object_query (u ∷ n ∷ p ∷ [])
    pub rows_get_object :
        (db : Db) (u n p : Bytes)
        → rows db get_object_query (u ∷ n ∷ p ∷ []) ≡ owned_columns u (object_at db n p)
    pub after_get_object :
        (db : Db) (u n p : Bytes) → after db get_object_query (u ∷ n ∷ p ∷ []) ≡ db
    -- `INSERT`: nothing happens where the name and the path are taken (ON CONFLICT IGNORE). A fresh
    -- identifier meets no other constraint: foreign keys are not enforced unless a connection asks
    -- for it, which this one does not.
    pub runs_create_object :
        (db : Db) (id n p : Bytes) (size : ℕ) (directory : Bool) (u : Bytes)
        → Runs S db create_object_query (object_params id n p size directory u)
    pub create_taken :
        (db : Db) (id n p : Bytes) (size : ℕ) (directory : Bool) (u : Bytes) (r : ObjectRow)
        → object_at db n p ≡ some r
        → object_at (after db create_object_query (object_params id n p size directory u))
          ≡ object_at db
    pub create_free :
        (db : Db) (id n p : Bytes) (size : ℕ) (directory : Bool) (u : Bytes)
        → object_at db n p ≡ none
        → IsFresh db id
        → object_at (after db create_object_query (object_params id n p size directory u))
          ≡ put_row (object_at db) (new_row db id n p size directory u)
    pub runs_update_size :
        (db : Db) (size : ℕ) (id : Bytes)
        → Runs S db update_object_size_query (to_string size ∷ id ∷ [])
    pub after_update_size :
        (db : Db) (size : ℕ) (id : Bytes)
        → object_at (after db update_object_size_query (to_string size ∷ id ∷ []))
          ≡ change_rows (with_size id (to_string size) (now db)) (object_at db)
    pub runs_ids_with_prefix :
        (db : Db) (u pattern : Bytes)
        → Runs S db get_object_ids_with_path_prefix_query (u ∷ pattern ∷ [])
    pub after_ids_with_prefix :
        (db : Db) (u pattern : Bytes)
        → after db get_object_ids_with_path_prefix_query (u ∷ pattern ∷ []) ≡ db
    pub runs_delete_prefix :
        (db : Db) (u pattern : Bytes)
        → Runs S db delete_object_ids_with_path_prefix_query (u ∷ pattern ∷ [])
    pub after_delete_prefix :
        (db : Db) (u pattern : Bytes)
        → object_at (after db delete_object_ids_with_path_prefix_query (u ∷ pattern ∷ []))
          ≡ keep_rows (λ r. not (same r.user_id u && like r.path pattern)) (object_at db)
    pub runs_delete_object : (db : Db) (id : Bytes) → Runs S db delete_object_query (id ∷ [])
    pub after_delete_object :
        (db : Db) (id : Bytes)
        → object_at (after db delete_object_query (id ∷ []))
          ≡ keep_rows (λ r. not (same r.object_id id)) (object_at db)
    -- A pattern that ends in `%` matches every text that continues what stands before it.
    pub like_prefix : (p s : Bytes) → like (p ++ s) (p ++ percent ∷ []) ≡ true
    -- A text that such a pattern matches may be continued.
    pub like_longer :
        (p s t : Bytes)
        → like s (p ++ percent ∷ []) ≡ true
        → like (s ++ t) (p ++ percent ∷ []) ≡ true
    -- The users.
    pub runs_get_id : (db : Db) (n : Bytes) → Runs S db get_id_by_name_query (n ∷ [])
    pub rows_get_id :
        (db : Db) (n : Bytes)
        → rows db get_id_by_name_query (n ∷ [])
          ≡ elim (user_named db n) [ none ↦ [] | some v ↦ (v.user_id ∷ []) ∷ [] ]
    pub after_get_id : (db : Db) (n : Bytes) → after db get_id_by_name_query (n ∷ []) ≡ db
    pub runs_get_password : (db : Db) (id : Bytes) → Runs S db get_password_by_id_query (id ∷ [])
    pub rows_get_password :
        (db : Db) (id : Bytes)
        → rows db get_password_by_id_query (id ∷ [])
          ≡ elim (password_of db id) [ none ↦ [] | some w ↦ (w ∷ []) ∷ [] ]
    pub after_get_password :
        (db : Db) (id : Bytes) → after db get_password_by_id_query (id ∷ []) ≡ db
