-- ===== src/Database/Objects/Outcomes.antt =====
-- What a client of `create_object` sees afterwards.
use asio_ftp.Base.{
  ℕ, ◌≡◌, Bool, true, false, none, some, Bytes, same, is_empty, returned, same_refl,
}
use asio_ftp.Database.Sqlite.{Sqlite}
use asio_ftp.Database.Schema.{ObjectRow, Tables, IsLawful, IsFresh, new_row, put_row}
use asio_ftp.Database.World.{World}
use asio_ftp.Database.Objects.{no_object, get_object, create_object}
use asio_ftp.Database.Objects.Lookup.{HasIds, object_of_row, get_object_lem}
use asio_ftp.Database.Objects.Create.{
  is_directory_path, uuid, inserted, create_object_lem, uuid-IsId,
}

module _ (S : Sqlite) (T : Tables S) (L : IsLawful S T) where
  open T use {object_at}

  module _ (rand : ℕ → ℕ) (u n p : Bytes) (size : ℕ) (directory : Bool) (w : World S.Db)
      (ids : HasIds S T w.db) (parent : is_directory_path S T u p w.db ≡ true) where
    abbrev w' : World S.Db
    w' = inserted S rand u n p size directory w

    -- Under the laws of the tables, with well-made identifiers in the rows, the path of a
    -- directory of the user or the root, a name and a path that no row has, and a fresh
    -- identifier: `create_object` returns the identifier, `get_object` then finds the new object,
    -- and the table is the old one with the new row.
    pub create_object-get_object :
        object_at w.db n p ≡ none
        → IsFresh S T w.db (uuid S rand w)
        → (create_object S rand u n p size directory w ≡ returned (uuid S rand w, w'))
          × (get_object S u n p w'
              ≡ returned
                  (object_of_row (new_row S T w.db (uuid S rand w) n p size directory u), w'))
          × (object_at w'.db
              ≡ put_row (object_at w.db) (new_row S T w.db (uuid S rand w) n p size directory u))
    create_object-get_object free fresh =
        let e = L.create_free w.db (uuid S rand w) n p size directory u free fresh in
        (
          rw (create_object_lem S T L rand u n p size directory w ids, free, parent),
          rw (get_object_lem S T L u n p w', e, same_refl n, same_refl p, same_refl u),
          e,
        )

    -- Under the laws of the tables, with well-made identifiers in the rows and the path of a
    -- directory of the user or the root, where another user's row has the name and the path:
    -- `create_object` returns an identifier that is not empty as if the object had been created,
    -- but the table is unchanged and the user's `get_object` finds nothing.
    pub create_object_taken :
        (r : ObjectRow)
        → object_at w.db n p ≡ some r
        → same r.user_id u ≡ false
        → (create_object S rand u n p size directory w ≡ returned (uuid S rand w, w'))
          × (is_empty (uuid S rand w) ≡ false)
          × (object_at w'.db ≡ object_at w.db)
          × (get_object S u n p w' ≡ returned (no_object, w'))
    create_object_taken r taken other =
        let e = L.create_taken w.db (uuid S rand w) n p size directory u r taken in
        (
          rw (create_object_lem S T L rand u n p size directory w ids, taken, parent, other),
          (uuid-IsId rand w.draws).0,
          e,
          rw (get_object_lem S T L u n p w', e, taken, other),
        )
