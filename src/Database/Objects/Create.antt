-- ===== src/Database/Objects/Create.antt =====
-- What `create_object` does, on every branch.
use asio_ftp.Base.{
  ℕ, ◌+◌, ◌<◌, ◌≡◌, refl, Bool, true, false, not, ◌&&◌, Option, none, some, [], ◌∷◌, Bytes, same,
  is_empty, if◌then◌else◌, returned, c_string_of_Lacks, arith, Option-cases, Bool-cases, subst, inl,
  inr, length,
}
use asio_ftp.Helpers.Paths.{slash, get_basename, get_parent_path}
use asio_ftp.Helpers.Uuid.{generate_uuid_string, generate_uuid_string-IsHexDigit, hex-Lacks}
use asio_ftp.Database.Sqlite.{Sqlite, run_param_query_lem}
use asio_ftp.Database.Schema.{
  ObjectRow, Tables, IsLawful, object_params, create_object_query, Table, put_row,
}
use asio_ftp.Database.World.{World}
use asio_ftp.Database.Objects.{has_parent, insert_object, create_object}
use asio_ftp.Database.Objects.Lookup.{IsId, HasIds, owns, seen_by, get_object_lem, is_empty-seen_by}

abbrev pub is_owned_directory : Bytes → Option ObjectRow → Bool
is_owned_directory u none = false
is_owned_directory u (some r) = same r.user_id u && r.is_directory

is_empty_of_length : (s : Bytes) → 0 < length s → is_empty s ≡ false
is_empty_of_length [] h = absurd (omega arith)
is_empty_of_length (c ∷ s) h = refl

pub uuid-IsId : (rand : ℕ → ℕ) (draws : ℕ) → IsId (generate_uuid_string rand draws 64)
uuid-IsId rand draws =
    let (hex, long) = generate_uuid_string-IsHexDigit rand draws 64 in
    (is_empty_of_length _ (omega (arith, long)), c_string_of_Lacks _ (hex-Lacks _ hex))

-- A table whose identifiers are well made stays so with a row whose identifier is.
pub put_row-HasIds :
    (t : Table) (row : ObjectRow)
    → IsId row.object_id
    → ((n p : Bytes) (r : ObjectRow) → t n p ≡ some r → IsId r.object_id)
    → (n p : Bytes) (r : ObjectRow) → put_row t row n p ≡ some r
    → IsId r.object_id
put_row-HasIds t row id h n p r e =
    let given : (if same n row.name && same p row.path then some row else t n p) ≡ some r = e in
    elim (Bool-cases (same n row.name && same p row.path)) [
      | inl hit ↦
          let same_row : row ≡ r = cc (rw hit at given) in
          subst (λ (x : ObjectRow). IsId x.object_id) same_row id
      | inr miss ↦ h n p r (rw miss at given)
    ]

module _ (S : Sqlite) where
  abbrev pub uuid : (ℕ → ℕ) → World S.Db → Bytes
  uuid rand w = generate_uuid_string rand w.draws 64

  -- The world behind the INSERT.
  abbrev pub inserted : (ℕ → ℕ) → Bytes → Bytes → Bytes → ℕ → Bool → World S.Db → World S.Db
  inserted rand u n p size directory w = record w {
    db = S.after w.db create_object_query (object_params (uuid rand w) n p size directory u);
    draws = w.draws + 64;
  }

module _ (S : Sqlite) (T : Tables S) where
  open T use {object_at}

  -- The path is the root, or that of a directory of the user.
  abbrev pub is_directory_path : Bytes → Bytes → S.Db → Bool
  is_directory_path u p db =
      if same p (slash ∷ [])
      then true
      else is_owned_directory u (object_at db (get_basename p) (get_parent_path p))

  module _ (L : IsLawful S T) where
    seen_directory :
        (u n p : Bytes) (db : S.Db)
        → HasIds S T db
        → let object = seen_by u (object_at db n p) in
          (not (is_empty object.id) && object.is_directory)
          ≡ is_owned_directory u (object_at db n p)
    seen_directory u n p db h = elim (Option-cases (object_at db n p)) [
      | inl e ↦ rw e refl
      | inr (r, e) ↦ rw e (ground (arith, h n p r e))
    ]

    has_parent_lem :
        (u p : Bytes) (w : World S.Db)
        → HasIds S T w.db
        → has_parent S u p w ≡ returned (is_directory_path u p w.db, w)
    unfolding has_parent
    has_parent_lem u p w h =
        rw (get_object_lem S T L u (get_basename p) (get_parent_path p) w)
          (ground (arith, seen_directory u (get_basename p) (get_parent_path p) w.db h))

    insert_object_lem :
        (rand : ℕ → ℕ) (u n p : Bytes) (size : ℕ) (directory : Bool) (w : World S.Db)
        → insert_object S rand u n p size directory w
          ≡ returned (uuid S rand w, inserted S rand u n p size directory w)
    unfolding insert_object
    insert_object_lem rand u n p size directory w = rw (
        run_param_query_lem S w.db create_object_query
          (object_params (uuid S rand w) n p size directory u)
          (L.runs_create_object w.db (uuid S rand w) n p size directory u))

    -- Under the laws of the tables, with well-made identifiers in the rows: `create_object` makes
    -- the INSERT and returns the identifier if the path is the root or that of a directory of the
    -- user and the user has no such object. Otherwise it returns the empty text and changes
    -- nothing.
    pub create_object_lem :
        (rand : ℕ → ℕ) (u n p : Bytes) (size : ℕ) (directory : Bool) (w : World S.Db)
        → HasIds S T w.db
        → create_object S rand u n p size directory w ≡ (
            if is_directory_path u p w.db && not (owns S T u n p w.db)
            then returned (uuid S rand w, inserted S rand u n p size directory w)
            else returned ([], w))
    unfolding create_object
    create_object_lem rand u n p size directory w h =
        rw
          (
            has_parent_lem u p w h,
            get_object_lem S T L u n p w,
            insert_object_lem rand u n p size directory w,
            is_empty-seen_by S T u n p w.db h,
          )
          (ground arith)
