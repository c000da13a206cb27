-- ===== src/Database/Objects/Siblings.antt =====
-- What else the removal of a directory takes out: the pattern of the DELETE ends in `%` with no slash
-- before it.
use asio_ftp.Base.{
  ◌≡◌, refl, ap, ◌∙◌, true, false, none, some, ◌∷◌, ◌++◌, [], Bytes, same, returned,
}
use asio_ftp.Helpers.Paths.{child_path}
use asio_ftp.Database.Sqlite.{Sqlite}
use asio_ftp.Database.Schema.{ObjectRow, Tables, IsLawful, Table, percent}
use asio_ftp.Database.World.{World}
use asio_ftp.Database.Objects.{remove_fs_object}
use asio_ftp.Database.Objects.Lookup.{HasIds}
use asio_ftp.Database.Objects.Remove.{outside, child_path-append, remove_fs_object_lem}

module _ (S : Sqlite) (T : Tables S) (L : IsLawful S T) where
  open T use {object_at, like}

  matched :
      (u n p more : Bytes) (x : ObjectRow)
      → x.path ≡ child_path p (n ++ more)
      → same x.user_id u ≡ true
      → outside S T u n p x ≡ false
  matched u n p more x at mine =
      let hit : like x.path (child_path p n ++ percent ∷ []) ≡ true =
        ap (λ q. like q (child_path p n ++ percent ∷ [])) (at ∙ child_path-append p n more)
        ∙ L.like_prefix (child_path p n) more in
      rw (mine, hit) refl

  -- Under the laws of the tables, with well-made identifiers in the rows: removing a directory of
  -- the user with the name `n` returns `true`, and an object of the user that stood in a directory
  -- beside it, whose name is `n` with more behind it, is gone too.
  pub remove_fs_object-siblings :
      (u n p more m : Bytes) (w : World S.Db) (r x : ObjectRow)
      → HasIds S T w.db
      → object_at w.db n p ≡ some r
      → same r.user_id u ≡ true
      → r.is_directory ≡ true
      → object_at w.db m (child_path p (n ++ more)) ≡ some x
      → same x.user_id u ≡ true
      → (w' : World S.Db) × (remove_fs_object S u n p w ≡ returned (true, w'))
        × (object_at w'.db m (child_path p (n ++ more)) ≡ none)
  remove_fs_object-siblings u n p more m w r x ids there mine directory inside own =
      let (w', e, table, gone) = remove_fs_object_lem S T L u n p w r ids there mine in
      (
        w',
        e,
        ap (λ (t : Table). t m (child_path p (n ++ more))) table
            ∙ rw
                (
                  directory,
                  inside,
                  matched u n p more x (L.keyed w.db m (child_path p (n ++ more)) x inside).1 own,
                )
                refl,
      )
