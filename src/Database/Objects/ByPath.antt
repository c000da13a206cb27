-- ===== src/Database/Objects/ByPath.antt =====
-- What `get_objects_by_path` returns, in terms of the table.
use mathlib.Core.List.{Memᴰ}
use asio_ftp.Base.{
  ◌≡◌, refl, sym, true, some, List, [], ◌∷◌, ◌++◌, map, append-nil, append_assoc, ◌∙◌, Bytes, same,
  returned, c_string, All, ap,
}
use asio_ftp.Database.Sqlite.{Sqlite, Runs, run_param_query_lem, collect_rows}
use asio_ftp.Database.Schema.{ObjectRow, Tables, columns, get_objects_by_path_query}
use asio_ftp.Database.World.{World}
use asio_ftp.Database.Objects.{read_objects, get_objects_by_path}
use asio_ftp.Database.Objects.Lookup.{object_of_row, flag_lem}

-- What the sources rely on of the SELECT by user and path: it gives the columns of the rows of the
-- table with them, in an order of its own, and changes nothing.
pub record Listings (S : Sqlite) (T : Tables S) : Type 0 where
  pub rows_by_path : S.Db → Bytes → Bytes → List ObjectRow
  pub runs : (db : S.Db) (u p : Bytes) → Runs S db get_objects_by_path_query (u ∷ p ∷ [])
  pub rows :
      (db : S.Db) (u p : Bytes)
      → S.rows db get_objects_by_path_query (u ∷ p ∷ []) ≡ map columns (rows_by_path db u p)
  pub after : (db : S.Db) (u p : Bytes) → S.after db get_objects_by_path_query (u ∷ p ∷ []) ≡ db
  pub sound :
      (db : S.Db) (u p : Bytes)
      → All
          (λ r. (T.object_at db r.name p ≡ some r) × (same r.user_id u ≡ true))
          (rows_by_path db u p)
  pub complete :
      (db : S.Db) (u n p : Bytes) (r : ObjectRow)
      → T.object_at db n p ≡ some r
      → same r.user_id u ≡ true
      → Memᴰ r (rows_by_path db u p)

collect_rows-append :
    (rows : List (List Bytes)) (result : List Bytes)
    → collect_rows rows result ≡ result ++ collect_rows rows []
unfolding collect_rows
collect_rows-append [] result = sym (append-nil result)
collect_rows-append (row ∷ rows) result =
    collect_rows-append rows (result ++ map c_string row)
    ∙ append_assoc result (map c_string row) (collect_rows rows [])
    ∙ ap (λ x. result ++ x) (sym (collect_rows-append rows (map c_string row)))

read_objects_lem :
    (rows : List ObjectRow)
    → read_objects (collect_rows (map columns rows) []) ≡ returned (map object_of_row rows)
unfolding read_objects collect_rows
read_objects_lem [] = refl
read_objects_lem (r ∷ rows) =
    rw
      (
        collect_rows-append (map columns rows) (map c_string (columns r)),
        read_objects_lem rows,
        flag_lem r.is_directory,
      )
      refl

-- `get_objects_by_path` returns the objects of the user's rows at the path, and changes nothing.
pub get_objects_by_path_lem :
    (S : Sqlite) (T : Tables S) (B : Listings S T) (u p : Bytes) (w : World S.Db)
    → get_objects_by_path S u p w ≡ returned (map object_of_row (B.rows_by_path w.db u p), w)
unfolding get_objects_by_path
get_objects_by_path_lem S T B u p w =
    rw
      (
        run_param_query_lem S w.db get_objects_by_path_query (u ∷ p ∷ []) (B.runs w.db u p),
        B.rows w.db u p,
        B.after w.db u p,
        read_objects_lem (B.rows_by_path w.db u p),
      )
      refl
