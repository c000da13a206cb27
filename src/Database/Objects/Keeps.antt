-- ===== src/Database/Objects/Keeps.antt =====
-- Every operation that returns keeps the tree of a user's objects.
use asio_ftp.Base.{
  ℕ, ◌≡◌, refl, Bool, true, not, ◌&&◌, [], ◌∷◌, Bytes, same, ◌∙◌, ◌⊎◌, sym, subst, if◌then◌else◌,
  Result, returned, arith, Option-cases, Bool-cases, inl, inr,
}
use asio_ftp.Helpers.Paths.{slash}
use asio_ftp.Database.Sqlite.{Sqlite}
use asio_ftp.Database.Schema.{Tables, IsLawful, IsFresh}
use asio_ftp.Database.World.{World}
use asio_ftp.Database.Objects.{create_object, remove_fs_object}
use asio_ftp.Database.Objects.Lookup.{HasIds, owns}
use asio_ftp.Database.Objects.Create.{is_directory_path, uuid, inserted, create_object_lem}
use asio_ftp.Database.Objects.Remove.{remove_fs_object_lem, remove_fs_object_missing}
use asio_ftp.Database.Objects.Tree.{IsTree, IsEntryPath, put_row-IsTree, without-IsTree}

module _ (S : Sqlite) (T : Tables S) (L : IsLawful S T) where
  open T use {object_at}

  inserted-IsTree :
      (rand : ℕ → ℕ) (u n p : Bytes) (size : ℕ) (directory : Bool) (w : World S.Db)
      → IsFresh S T w.db (uuid S rand w)
      → (p ≡ slash ∷ []) ⊎ IsEntryPath p
      → is_directory_path S T u p w.db ≡ true
      → IsTree (object_at w.db) u
      → IsTree (object_at (inserted S rand u n p size directory w).db) u
  inserted-IsTree rand u n p size directory w fresh path parent tree =
      elim (Option-cases (object_at w.db n p)) [
        | inl free ↦
            subst (λ t. IsTree t u)
              (sym (L.create_free w.db (uuid S rand w) n p size directory u free fresh))
              (put_row-IsTree S T L u w.db _ free path parent tree)
        | inr (r, taken) ↦
            subst (λ t. IsTree t u)
              (sym (L.create_taken w.db (uuid S rand w) n p size directory u r taken)) tree
      ]

  -- Under the laws of the tables, with well-made identifiers in the rows: `create_object` that
  -- returns, with a fresh identifier, at the root or at a path put together from an absolute path
  -- and a name with no slash, keeps the tree: if each object of the user stood at the root or in a
  -- directory of the user's, each does so afterwards.
  pub create_object-IsTree :
      (rand : ℕ → ℕ) (u n p : Bytes) (size : ℕ) (directory : Bool) (w : World S.Db) (id : Bytes)
      (w' : World S.Db)
      → HasIds S T w.db
      → IsFresh S T w.db (uuid S rand w)
      → (p ≡ slash ∷ []) ⊎ IsEntryPath p
      → create_object S rand u n p size directory w ≡ returned (id, w')
      → IsTree (object_at w.db) u
      → IsTree (object_at w'.db) u
  create_object-IsTree rand u n p size directory w id w' ids fresh path e tree =
      elim (Bool-cases (is_directory_path S T u p w.db && not (owns S T u n p w.db))) [
        | inl allowed ↦
            keep {i = uuid S rand w} (inserted S rand u n p size directory w)
              (result ∙ rw allowed refl)
              (inserted-IsTree rand u n p size directory w fresh path (ground arith) tree)
        | inr refused ↦ keep {i = []} w (result ∙ rw refused refl) tree
      ]
    where
      result : ◌≡◌ {A = Result (Bytes × World S.Db)} (returned (id, w')) (
          if is_directory_path S T u p w.db && not (owns S T u n p w.db)
          then returned (uuid S rand w, inserted S rand u n p size directory w)
          else returned ([], w))
      result = sym e ∙ create_object_lem S T L rand u n p size directory w ids

      keep :
          {i : Bytes} (v : World S.Db)
          → ◌≡◌ {A = Result (Bytes × World S.Db)} (returned (id, w')) (returned (i, v))
          → IsTree (object_at v.db) u
          → IsTree (object_at w'.db) u
      keep v q h =
          let same_world : w' ≡ v = cc q in
          subst (λ (x : World S.Db). IsTree (object_at x.db) u) (sym same_world) h

  -- Under the laws of the tables, with well-made identifiers in the rows: `remove_fs_object` that
  -- returns, whatever the name and the path, keeps the tree: if each object of the user stood at
  -- the root or in a directory of the user's, each does so afterwards.
  pub remove_fs_object-IsTree :
      (u n p : Bytes) (w : World S.Db) (done : Bool) (w' : World S.Db)
      → HasIds S T w.db
      → remove_fs_object S u n p w ≡ returned (done, w')
      → IsTree (object_at w.db) u
      → IsTree (object_at w'.db) u
  remove_fs_object-IsTree u n p w done w' ids e tree = elim (Option-cases (object_at w.db n p)) [
    | inl missing ↦
        keep w (sym e ∙ remove_fs_object_missing S T L u n p w ids (rw missing refl)) tree
    | inr (r, there) ↦ elim (Bool-cases (same r.user_id u)) [
      | inl mine ↦
          let (v, removed, table, gone) = remove_fs_object_lem S T L u n p w r ids there mine in
          keep v (sym e ∙ removed)
            (subst (λ t. IsTree t u) (sym table) (without-IsTree S T L u n p w.db r there tree))
      | inr other ↦
          keep w (sym e ∙ remove_fs_object_missing S T L u n p w ids (rw (there, other) refl)) tree
    ]
  ]
    where
      keep :
          {b : Bool} (v : World S.Db)
          → ◌≡◌ {A = Result (Bool × World S.Db)} (returned (done, w')) (returned (b, v))
          → IsTree (object_at v.db) u
          → IsTree (object_at w'.db) u
      keep v q h =
          let same_world : w' ≡ v = cc q in
          subst (λ (x : World S.Db). IsTree (object_at x.db) u) (sym same_world) h
