-- ===== src/Database/Objects/Update.antt =====
-- What `update_object_size` does.
use asio_ftp.Base.{ℕ, ◌≡◌, true, false, some, [], ◌∷◌, Bytes, same, ap, ◌∙◌, returned}
use asio_ftp.Helpers.Decimal.{to_string}
use asio_ftp.Database.Sqlite.{Sqlite, run_param_query_lem}
use asio_ftp.Database.Schema.{
  ObjectRow, Tables, IsLawful, change_rows, with_size, update_object_size_query,
}
use asio_ftp.Database.World.{World}
use asio_ftp.Database.Objects.{get_object, update_object_size}
use asio_ftp.Database.Objects.Lookup.{HasIds, owns, object_of_row, get_object_lem, is_empty-seen_by}

module _ (S : Sqlite) (T : Tables S) (L : IsLawful S T) where
  open T use {object_at, now}

  -- Under the laws of the tables, with well-made identifiers in the rows: `update_object_size` of
  -- an object of the user returns its identifier; the size and the time of its row change, and
  -- nothing else of the table or the world does.
  pub update_object_size_lem :
      (u n p : Bytes) (size : ℕ) (w : World S.Db) (r : ObjectRow)
      → HasIds S T w.db
      → object_at w.db n p ≡ some r
      → same r.user_id u ≡ true
      → (db' : S.Db) × (update_object_size S u n p size w
          ≡ returned (r.object_id, record w { db = db' }))
        × (object_at db'
            ≡ change_rows (with_size r.object_id (to_string size) (now w.db)) (object_at w.db))
  unfolding update_object_size
  update_object_size_lem u n p size w r ids there mine =
      let params = to_string size ∷ r.object_id ∷ [] in
      let found : get_object S u n p w
          ≡ returned (record (object_of_row r) { id = r.object_id }, w) =
        get_object_lem S T L u n p w
        ∙ rw (there, mine)
            (ap (λ i. returned (record (object_of_row r) { id = i }, w)) (ids n p r there).1) in
      (
        S.after w.db update_object_size_query params,
        rw (
          found,
          (ids n p r there).0,
          run_param_query_lem S w.db update_object_size_query params
              (L.runs_update_size w.db size r.object_id),
        ),
        L.after_update_size w.db size r.object_id,
      )

  -- With no such object nothing changes.
  pub update_object_size_missing :
      (u n p : Bytes) (size : ℕ) (w : World S.Db)
      → HasIds S T w.db
      → owns S T u n p w.db ≡ false
      → update_object_size S u n p size w ≡ returned ([], w)
  unfolding update_object_size
  update_object_size_missing u n p size w ids missing =
      rw (get_object_lem S T L u n p w, is_empty-seen_by S T u n p w.db ids, missing)
