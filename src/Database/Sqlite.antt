-- ===== src/Database/Sqlite.antt =====
-- src/database/sqlite_wrapper.cpp: `run_param_query` over the C interface of SQLite, which is a
-- parameter: the return codes of each call, the rows that stepping yields, and the database behind.
use Prim.Native.String.{String}
use asio_ftp.Base.{
  ℕ, ◌+◌, ◌≡◌, refl, false, List, [], ◌∷◌, ◌++◌, map, Bytes, c_string, ◌==◌, if◌then◌else◌, Result,
  returned, thrown, runtime_error, ◌>>◌, arith,
}

pub record Sqlite : Type 1 where
  pub Db : Type 0
  -- The return codes of `sqlite3_prepare_v2` and of `sqlite3_bind_text` at an index.
  pub prepare : Db → String → ℕ
  pub bind_text : Db → String → ℕ → Bytes → ℕ
  -- The columns of each row for which `sqlite3_step` returns `SQLITE_ROW`, the code that it returns
  -- behind the last row, and the database then.
  pub rows : Db → String → List Bytes → List (List Bytes)
  pub last_step : Db → String → List Bytes → ℕ
  pub after : Db → String → List Bytes → Db

abbrev pub sqlite_ok : ℕ
sqlite_ok = 0

abbrev pub sqlite_misuse : ℕ
sqlite_misuse = 21

-- The loop over the rows and, inside it, over the columns: each column is copied as a C string.
unfoldable pub collect_rows : List (List Bytes) → List Bytes → List Bytes
collect_rows [] result = result
collect_rows (row ∷ rows) result = collect_rows rows (result ++ map c_string row)

module _ (S : Sqlite) where
  -- `for (size_t i = 0; i < params.size(); i++)`
  bind_loop : S.Db → String → ℕ → List Bytes → Result (Unit {0})
  bind_loop db sql i [] = returned tt
  bind_loop db sql i (param ∷ params) =
      let rest = bind_loop db sql (i + 1) params in
      if S.bind_text db sql (i + 1) param == sqlite_ok then rest else thrown runtime_error

  abbrev Reply : Type 0
  Reply = List Bytes × S.Db

  unfoldable pub run_param_query : S.Db → String → List Bytes → Result (List Bytes × S.Db)
  unfolding bind_loop
  run_param_query db sql params = do
    (if S.prepare db sql == sqlite_ok then returned tt else thrown runtime_error)
    bind_loop db sql 0 params
    (if S.last_step db sql params == sqlite_misuse
        then thrown runtime_error
        else returned (collect_rows (S.rows db sql params) [], S.after db sql params))

  -- Each parameter is bound at its index, from 1.
  abbrev pub AllBound : S.Db → String → ℕ → List Bytes → Type 0
  AllBound db sql i [] = Unit {0}
  AllBound db sql i (param ∷ params) =
      (S.bind_text db sql (i + 1) param ≡ sqlite_ok) × AllBound db sql (i + 1) params

  -- A statement that is prepared and bound without an error and that is not misused.
  pub record Runs (db : S.Db) (sql : String) (params : List Bytes) : Type 0 where
    pub prepared : S.prepare db sql ≡ sqlite_ok
    pub bound : AllBound db sql 0 params
    pub not_misused : (S.last_step db sql params == sqlite_misuse) ≡ false

  bind_loop_lem :
      (db : S.Db) (sql : String) (params : List Bytes) (i : ℕ)
      → AllBound db sql i params
      → bind_loop db sql i params ≡ returned tt
  unfolding bind_loop
  bind_loop_lem db sql [] i h = refl
  bind_loop_lem db sql (param ∷ params) i h =
      ground (arith, bind_loop_lem db sql params (i + 1) h.1)

  -- What such a statement returns.
  pub run_param_query_lem :
      (db : S.Db) (sql : String) (params : List Bytes)
      → Runs db sql params
      → run_param_query db sql params
        ≡ returned (collect_rows (S.rows db sql params) [], S.after db sql params)
  unfolding run_param_query
  run_param_query_lem db sql params r =
      ground (arith, r.prepared, bind_loop_lem db sql params 0 r.bound, r.not_misused)
