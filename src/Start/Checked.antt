-- ===== src/Start/Checked.antt =====
-- src/database/users.cpp: what the operations at the start do under the laws of the table of users.
use Prim.Native.String.{String}
use asio_ftp.Base.{
  ℕ, ◌+◌, ◌≡◌, refl, sym, ap, ◌∙◌, Option, none, some, List, [], ◌∷◌, ◌++◌, append-nil,
  append_assoc, map, All, Bytes, c_string, c_string_of_Lacks, same, returned,
}
use asio_ftp.Helpers.Uuid.{generate_uuid_string}
use asio_ftp.Database.Sqlite.{Sqlite, sqlite_ok, run_param_query_lem}
use asio_ftp.Database.Schema.{UserRow, create_user_query}
use asio_ftp.Database.World.{World}
use asio_ftp.Database.Connection.{
  Calls, SqliteContext, empty_context, push_columns, sqlite_callback, call_back, run_query,
}
use asio_ftp.Database.Checks.{
  credentials_of, is_structure, get_all_user_credentials_query, get_user_table_name_query,
  user_table_creation_query, check_user_table_structure_query, check_user_table_structure,
  create_user_table, check_user_table_exists, get_all_user_credentials,
}
use asio_ftp.Database.Users.{create_user}
use asio_ftp.Start.Accounts.{
  UsersTable, Accounts, IsText, IsOurs, rows_of, creation, credentials, insert_account,
  insert_params, named_columns,
}

abbrev flat : List UserRow → List Bytes
flat [] = []
flat (u ∷ us) = u.name ∷ u.password ∷ flat us

credentials_lem : (us : List UserRow) → credentials_of (flat us) ≡ returned (credentials us)
unfolding credentials_of
credentials_lem [] = refl
credentials_lem (u ∷ us) = rw (credentials_lem us) refl

module _ (S : Sqlite) (C : Calls S) (table : S.Db → Option UsersTable) where
  open S use {Db}

  run_query_lem :
      (sql : String) (db : Db)
      → C.exec_code db sql ≡ sqlite_ok
      → run_query S C sql db
        ≡ returned ((call_back empty_context (C.exec_rows db sql)).argv, C.exec_after db sql)
  unfolding run_query
  run_query_lem sql db e = rw e refl

  module _ (A : Accounts S C table) where
    structure_lem :
        (db : Db) (rows : List UserRow)
        → table db ≡ some (record { sql = creation; rows = rows })
        → (db' : Db) × (check_user_table_structure S C db ≡ returned db')
          × (table db' ≡ some (record { sql = creation; rows = rows }))
    unfolding check_user_table_structure is_structure call_back sqlite_callback push_columns same
        c_string
    structure_lem db rows e =
        let (code, kept) = A.compared db in
        (
          C.exec_after db check_user_table_structure_query,
          rw
              (
                run_query_lem check_user_table_structure_query db code,
                A.compared_rows db (record { sql = creation; rows = rows }) e,
              )
              refl,
          kept ∙ e,
        )

    create_lem :
        (db : Db)
        → table db ≡ none
        → (db' : Db) × (create_user_table S C db ≡ returned db')
          × (table db' ≡ some (record { sql = creation; rows = [] }))
    unfolding create_user_table
    create_lem db e =
        let (code, made) = A.created db e in
        let (db', checked, kept) =
          structure_lem (C.exec_after db user_table_creation_query) [] made in
        (db', rw (run_query_lem user_table_creation_query db code) checked, kept)

    -- What a table that is looked up stands for.
    checked_table :
        (db : Db) (o : Option UsersTable)
        → table db ≡ o
        → IsOurs o
        → (db' : Db) × (check_user_table_exists S C db ≡ returned db')
          × (table db' ≡ some (record { sql = creation; rows = rows_of o }))
    unfolding check_user_table_exists call_back sqlite_callback push_columns
    checked_table db none e ours =
        let (code, kept) = A.looked_up db in
        let (db', made, has) = create_lem (C.exec_after db get_user_table_name_query) (kept ∙ e) in
        (
          db',
          rw (run_query_lem get_user_table_name_query db code, A.looked_up_rows db, e) made,
          has,
        )
    checked_table db (some t) e (same_sql, texts) =
        let (code, kept) = A.looked_up db in
        let whole : t ≡ record { sql = creation; rows = t.rows } =
          ap (λ x. record { sql = x; rows = t.rows }) same_sql in
        let (db', checked, has) =
          structure_lem (C.exec_after db get_user_table_name_query) t.rows
            (kept ∙ e ∙ ap some whole) in
        (
          db',
          rw (run_query_lem get_user_table_name_query db code, A.looked_up_rows db, e) checked,
          has,
        )

    pub check_lem :
        (db : Db)
        → IsOurs (table db)
        → (db' : Db) × (check_user_table_exists S C db ≡ returned db')
          × (table db' ≡ some (record { sql = creation; rows = rows_of (table db) }))
    check_lem db ours = checked_table db (table db) refl ours

    flat_rows :
        (us : List UserRow) (c : SqliteContext)
        → All IsText us
        → (call_back c (map named_columns us)).argv ≡ c.argv ++ flat us
    unfolding call_back sqlite_callback push_columns
    flat_rows [] c h = sym (append-nil c.argv)
    flat_rows (u ∷ us) c ((n, p), h) =
        flat_rows us (sqlite_callback c (named_columns u)) h
        ∙ rw (c_string_of_Lacks u.name n, c_string_of_Lacks u.password p)
            (rw (append_assoc c.argv (u.name ∷ []) (u.password ∷ []))
              (append_assoc c.argv (u.name ∷ u.password ∷ []) (flat us)))

    pub get_all_lem :
        (db : Db) (t : UsersTable)
        → table db ≡ some t
        → All IsText t.rows
        → (db' : Db) × (get_all_user_credentials S C db ≡ returned (credentials t.rows, db'))
          × (table db' ≡ some t)
    unfolding get_all_user_credentials
    get_all_lem db t e texts =
        let (code, kept) = A.listed db in
        (
          C.exec_after db get_all_user_credentials_query,
          rw
              (
                run_query_lem get_all_user_credentials_query db code,
                A.listed_rows db t e,
                flat_rows t.rows empty_context texts,
                credentials_lem t.rows,
              )
              refl,
          kept ∙ e,
        )

    pub create_user_lem :
        (rand : ℕ → ℕ) (n p : Bytes) (w : World Db) (t : UsersTable)
        → table w.db ≡ some t
        → (w' : World Db) × (create_user S rand n p w ≡ returned w')
          × (table w'.db
              ≡ some (record t {
                rows =
                    insert_account
                      (record {
                        user_id = generate_uuid_string rand w.draws 64;
                        name = n;
                        password = p;
                      })
                      t.rows;
              }))
          × (w'.draws ≡ w.draws + 64)
    unfolding create_user
    create_user_lem rand n p w t e =
        let id = generate_uuid_string rand w.draws 64 in
        let db' = S.after w.db create_user_query (insert_params id n p) in
        (
          record w { db = db'; draws = w.draws + 64 },
          rw
              (run_param_query_lem S w.db create_user_query (insert_params id n p)
                (A.inserted_runs w.db id n p))
              refl,
          A.inserted w.db t id n p e,
          refl,
        )
