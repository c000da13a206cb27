-- ===== src/Start/Accounts.antt =====
-- src/database/users.cpp: what SQLite documents of the statements on the table of users as a whole. The
-- laws are of one connection, and of texts with no NUL.
use Prim.Native.String.{String}
use asio_ftp.Base.{
  ◌≡◌, Bool, true, false, not, ◌||◌, ◌&&◌, Option, none, some, List, [], ◌∷◌, ◌++◌, map, All, Bytes,
  codes, Lacks, same, if◌then◌else◌,
}
use asio_ftp.Database.Sqlite.{Sqlite, sqlite_ok, Runs}
use asio_ftp.Database.Schema.{UserRow, create_user_query}
use asio_ftp.Database.Connection.{Calls, Column, optimizations}
use asio_ftp.Database.Checks.{
  Credentials, get_all_user_credentials_query, get_user_table_name_query, user_table_creation_query,
  check_user_table_structure_query,
}

-- The password of the first row with a name.
unfoldable pub password_named : Bytes → List UserRow → Option Bytes
password_named n [] = none
password_named n (u ∷ us) = if same n u.name then some u.password else password_named n us

-- UNIQUE (name)
abbrev pub HasDistinctNames : List UserRow → Type 0
HasDistinctNames [] = Unit
HasDistinctNames (u ∷ us) = (password_named u.name us ≡ none) × HasDistinctNames us

abbrev pub IsText : UserRow → Type 0
IsText u = Lacks 0 u.name × Lacks 0 u.password

unfoldable pub has_id : Bytes → List UserRow → Bool
has_id id [] = false
has_id id (u ∷ us) = same id u.user_id || has_id id us

abbrev pub is_none {ℓ} : {A : Type ℓ} → Option A → Bool
is_none none = true
is_none (some a) = false

-- An INSERT that meets a constraint does nothing.
abbrev pub insert_account : UserRow → List UserRow → List UserRow
insert_account u us =
    if is_none (password_named u.name us) && not (has_id u.user_id us) then us ++ u ∷ [] else us

-- The users as the table has them.
abbrev pub credentials : List UserRow → List Credentials
credentials us = map (λ u. record { name = u.name; password = u.password }) us

-- The table of users: the statement that made it, and its rows.
pub record UsersTable : Type 0 where
  pub sql : Bytes
  pub rows : List UserRow

abbrev pub named_columns : UserRow → List Column
named_columns u =
    record { text = u.name; name = codes "name" }
    ∷ record { text = u.password; name = codes "password" }
    ∷ []

abbrev pub name_rows : Option UsersTable → List (List Column)
name_rows none = []
name_rows (some t) = (record { text = codes "users"; name = codes "name" } ∷ []) ∷ []

abbrev pub creation : Bytes
creation = codes user_table_creation_query

abbrev pub rows_of : Option UsersTable → List UserRow
rows_of none = []
rows_of (some t) = t.rows

-- No table, or one that the statement made, whose texts have no NUL.
abbrev pub IsOurs : Option UsersTable → Type 0
IsOurs none = Unit
IsOurs (some t) = (t.sql ≡ creation) × All IsText t.rows

abbrev pub insert_params : Bytes → Bytes → Bytes → List Bytes
insert_params id n p = id ∷ n ∷ p ∷ []

module _ (S : Sqlite) (C : Calls S) (table : S.Db → Option UsersTable) where
  open S use {Db}

  -- A statement that runs and leaves the table of users.
  abbrev pub Keeps : String → Type 0
  Keeps sql =
      (db : Db) → (C.exec_code db sql ≡ sqlite_ok) × (table (C.exec_after db sql) ≡ table db)

  pub record Accounts : Type 0 where
    pub empty : table C.empty_db ≡ none
    pub distinct : (db : Db) (t : UsersTable) → table db ≡ some t → HasDistinctNames t.rows
    pub optimized : Keeps optimizations
    pub looked_up : Keeps get_user_table_name_query
    pub looked_up_rows : (db : Db) → C.exec_rows db get_user_table_name_query ≡ name_rows (table db)
    pub created :
        (db : Db)
        → table db ≡ none
        → (C.exec_code db user_table_creation_query ≡ sqlite_ok)
          × (table (C.exec_after db user_table_creation_query)
              ≡ some (record { sql = creation; rows = [] }))
    pub compared : Keeps check_user_table_structure_query
    pub compared_rows :
        (db : Db) (t : UsersTable)
        → table db ≡ some t
        → C.exec_rows db check_user_table_structure_query
          ≡ (record { text = t.sql; name = codes "sql" } ∷ []) ∷ []
    pub listed : Keeps get_all_user_credentials_query
    pub listed_rows :
        (db : Db) (t : UsersTable)
        → table db ≡ some t
        → C.exec_rows db get_all_user_credentials_query ≡ map named_columns t.rows
    pub inserted_runs :
        (db : Db) (id n p : Bytes) → Runs S db create_user_query (insert_params id n p)
    pub inserted :
        (db : Db) (t : UsersTable) (id n p : Bytes)
        → table db ≡ some t
        → table (S.after db create_user_query (insert_params id n p))
          ≡ some (record t {
            rows = insert_account (record { user_id = id; name = n; password = p }) t.rows;
          })
