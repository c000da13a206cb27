-- ===== src/Database/Objects/Remove.antt =====
-- What `remove_fs_object` takes out of the table, and the files that go with it.
use asio_ftp.Base.{
  ◌≡◌, refl, Bool, true, false, not, ◌&&◌, none, some, [], ◌∷◌, ◌++◌, Bytes, same, ap, ◌∙◌,
  append_assoc, if◌then◌else◌, returned, arith, Bool-cases, inl, inr, same_refl,
}
use asio_ftp.Helpers.Paths.{slash, child_path}
use asio_ftp.Database.Sqlite.{Sqlite, run_param_query_lem, collect_rows}
use asio_ftp.Database.Schema.{
  ObjectRow, Tables, IsLawful, Table, keep_rows, percent, get_object_ids_with_path_prefix_query,
  delete_object_ids_with_path_prefix_query, delete_object_query,
}
use asio_ftp.Database.World.{World, remove_file, data_file}
use asio_ftp.Database.Objects.{
  get_object, path_prefix, remove_files, remove_inside, remove_row, remove_fs_object,
}
use asio_ftp.Database.Objects.Lookup.{HasIds, owns, object_of_row, get_object_lem, is_empty-seen_by}

path_prefix-child_path : (p n : Bytes) → path_prefix p n ≡ child_path p n ++ percent ∷ []
unfolding path_prefix child_path
path_prefix-child_path p n =
    ground (arith, append_assoc p n (percent ∷ []), append_assoc p (slash ∷ n) (percent ∷ []))

pub child_path-append : (p n x : Bytes) → child_path p (n ++ x) ≡ child_path p n ++ x
unfolding child_path
child_path-append p n x = ground (arith, append_assoc p n x, append_assoc p (slash ∷ n) x)

module _ (S : Sqlite) (T : Tables S) where
  open T use {object_at, like}

  -- The rows that stay when the objects inside a directory go.
  abbrev pub outside : Bytes → Bytes → Bytes → ObjectRow → Bool
  outside u n p r = not (same r.user_id u && like r.path (child_path p n ++ percent ∷ []))

  -- The table without an object and, if that is a directory, without what is inside.
  abbrev pub without : Bytes → Bytes → Bytes → ObjectRow → Table → Table
  without u n p r t =
      keep_rows (λ x. not (same x.object_id r.object_id))
        (if r.is_directory then keep_rows (outside u n p) t else t)

  module _ (L : IsLawful S T) where
    remove_inside_lem :
        (u n p : Bytes) (w : World S.Db)
        → (w' : World S.Db) × (remove_inside S u n p w ≡ returned w')
          × (object_at w'.db ≡ keep_rows (outside u n p) (object_at w.db))
    unfolding remove_inside
    remove_inside_lem u n p w =
        let pattern = path_prefix p n in
        (
          record w {
            db = S.after w.db delete_object_ids_with_path_prefix_query (u ∷ pattern ∷ []);
            files =
                remove_files
                  (collect_rows
                    (S.rows w.db get_object_ids_with_path_prefix_query (u ∷ pattern ∷ [])) [])
                  w.files;
          },
          rw (
            run_param_query_lem S w.db get_object_ids_with_path_prefix_query (u ∷ pattern ∷ [])
                (L.runs_ids_with_prefix w.db u pattern),
            L.after_ids_with_prefix w.db u pattern,
            run_param_query_lem S w.db delete_object_ids_with_path_prefix_query (u ∷ pattern ∷ [])
                (L.runs_delete_prefix w.db u pattern),
          ),
          rw (L.after_delete_prefix w.db u pattern, path_prefix-child_path p n),
        )

    remove_row_lem :
        (id : Bytes) (w : World S.Db)
        → (w' : World S.Db) × (remove_row S id w ≡ returned w')
          × (object_at w'.db ≡ keep_rows (λ r. not (same r.object_id id)) (object_at w.db))
          × (w'.files (data_file id) ≡ none)
    unfolding remove_row remove_file
    remove_row_lem id w = (
      record w {
        db = S.after w.db delete_object_query (id ∷ []);
        files = (remove_file (data_file id) w.files).1;
      },
      rw (run_param_query_lem S w.db delete_object_query (id ∷ []) (L.runs_delete_object w.db id)),
      L.after_delete_object w.db id,
      rw (same_refl (data_file id)),
    )

    -- Under the laws of the tables, with well-made identifiers in the rows: removing an object
    -- that the user has returns `true`; its row and its file are gone and, if it is a directory,
    -- so are the user's rows whose path the pattern of the directory matches; the other rows stay.
    pub remove_fs_object_lem :
        (u n p : Bytes) (w : World S.Db) (r : ObjectRow)
        → HasIds S T w.db
        → object_at w.db n p ≡ some r
        → same r.user_id u ≡ true
        → (w' : World S.Db) × (remove_fs_object S u n p w ≡ returned (true, w'))
          × (object_at w'.db ≡ without u n p r (object_at w.db))
          × (w'.files (data_file r.object_id) ≡ none)
    unfolding remove_fs_object
    remove_fs_object_lem u n p w r ids there mine = elim (Bool-cases r.is_directory) [
      | inl directory ↦
          let (w₂, e₂, t₂) = remove_inside_lem u n p w in
          let (w₃, e₃, t₃, f₃) = remove_row_lem r.object_id w₂ in
          (
            w₃,
            rw (found, (ids n p r there).0, directory, e₂, e₃) refl,
            rw directory (t₃ ∙ ap (keep_rows (λ x. not (same x.object_id r.object_id))) t₂),
            f₃,
          )
      | inr file ↦
          let (w₃, e₃, t₃, f₃) = remove_row_lem r.object_id w in
          (w₃, rw (found, (ids n p r there).0, file, e₃) refl, rw file t₃, f₃)
    ]
      where
        found : get_object S u n p w ≡ returned (record (object_of_row r) { id = r.object_id }, w)
        found =
            get_object_lem S T L u n p w
            ∙ rw (there, mine)
                (ap (λ i. returned (record (object_of_row r) { id = i }, w)) (ids n p r there).1)

    -- Under the laws of the tables, with well-made identifiers in the rows: removing an object
    -- that the user does not have, under the name and the path, returns `false` and changes
    -- nothing.
    pub remove_fs_object_missing :
        (u n p : Bytes) (w : World S.Db)
        → HasIds S T w.db
        → owns S T u n p w.db ≡ false
        → remove_fs_object S u n p w ≡ returned (false, w)
    unfolding remove_fs_object
    remove_fs_object_missing u n p w ids missing =
        rw (get_object_lem S T L u n p w, is_empty-seen_by S T u n p w.db ids, missing)
