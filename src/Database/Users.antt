-- ===== src/Database/Users.antt =====
-- src/database/users.cpp: the queries that a session makes, and `create_user`.
pub mod Lookups
use asio_ftp.Helpers.Uuid.{generate_uuid_string}
use asio_ftp.Base.{ℕ, ◌+◌, Bool, false, List, [], ◌∷◌, Bytes, same, Result, returned, ◌>>=◌}
use asio_ftp.Database.Sqlite.{Sqlite, run_param_query}
use asio_ftp.Database.Schema.{get_id_by_name_query, get_password_by_id_query, create_user_query}
use asio_ftp.Database.World.{World}

-- The first text of a result, or the empty one.
abbrev pub first_or_empty : List Bytes → Bytes
first_or_empty [] = []
first_or_empty (x ∷ xs) = x

-- `!result_vector.empty() && (result_vector[0] == password)`
abbrev pub first_is : List Bytes → Bytes → Bool
first_is [] password = false
first_is (x ∷ xs) password = same x password

module _ (S : Sqlite) where
  unfoldable pub get_id_by_name : Bytes → World S.Db → Result (Bytes × World S.Db)
  get_id_by_name name w = do
    (result, db) ← run_param_query S w.db get_id_by_name_query (name ∷ [])
    returned (first_or_empty result, record w { db = db })

  unfoldable pub check_password : Bytes → Bytes → World S.Db → Result (Bool × World S.Db)
  check_password id password w = do
    (result, db) ← run_param_query S w.db get_password_by_id_query (id ∷ [])
    returned (first_is result password, record w { db = db })

  -- What the statement returns is not looked at.
  unfoldable pub create_user : (ℕ → ℕ) → Bytes → Bytes → World S.Db → Result (World S.Db)
  create_user rand name password w = do
    let id = generate_uuid_string rand w.draws 64
    (output, db) ← run_param_query S w.db create_user_query (id ∷ name ∷ password ∷ [])
    returned (record w { db = db; draws = w.draws + 64 })
