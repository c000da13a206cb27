-- ===== src/Database/Objects/Lookup.antt =====
-- What `get_object` returns, in terms of the table.
use asio_ftp.Base.{
  ◌≡◌, refl, Bool, true, false, not, Option, none, some, [], ◌∷◌, Bytes, same, is_empty,
  if◌then◌else◌, codes, returned, c_string, arith, Option-cases, inl, inr,
}
use asio_ftp.Database.Sqlite.{Sqlite, run_param_query_lem, collect_rows}
use asio_ftp.Database.Schema.{ObjectRow, Tables, IsLawful, flag, owned_columns, get_object_query}
use asio_ftp.Database.World.{World}
use asio_ftp.Database.Objects.{FsObject, no_object, first_object, get_object}

-- What a client sees of a row: each column up to a NUL.
abbrev pub object_of_row : ObjectRow → FsObject
object_of_row r = record {
  id = c_string r.object_id;
  name = c_string r.name;
  path = c_string r.path;
  size = c_string r.size;
  modified_time = c_string r.modified_time;
  is_directory = r.is_directory;
}

-- A row as its owner and the others see it.
abbrev pub seen_by : Bytes → Option ObjectRow → FsObject
seen_by u none = no_object
seen_by u (some r) = if same r.user_id u then object_of_row r else no_object

abbrev pub is_owned : Bytes → Option ObjectRow → Bool
is_owned u none = false
is_owned u (some r) = same r.user_id u

pub flag_lem : (b : Bool) → same (c_string (flag b)) (codes "1") ≡ b
unfolding same c_string
flag_lem true = refl
flag_lem false = refl

first_object-owned :
    (u : Bytes) (o : Option ObjectRow)
    → first_object (collect_rows (owned_columns u o) []) ≡ returned (seen_by u o)
unfolding first_object collect_rows
first_object-owned u none = refl
first_object-owned u (some r) = ground (arith, flag_lem r.is_directory)

-- An identifier as the sources make them: not empty, and with no NUL.
abbrev pub IsId : Bytes → Type 0
IsId id = (is_empty id ≡ false) × (c_string id ≡ id)

module _ (S : Sqlite) (T : Tables S) where
  open T use {object_at}

  -- Every row has such an identifier.
  abbrev pub HasIds : S.Db → Type 0
  HasIds db = (n p : Bytes) (r : ObjectRow) → object_at db n p ≡ some r → IsId r.object_id

  -- Whether a user has an object of this name and path.
  abbrev pub owns : Bytes → Bytes → Bytes → S.Db → Bool
  owns u n p db = is_owned u (object_at db n p)

  module _ (L : IsLawful S T) where
    -- Under the laws of the tables, `get_object` returns the object of the row under the name and
    -- the path if it is the user's, and otherwise one with no identifier, and changes nothing.
    pub get_object_lem :
        (u n p : Bytes) (w : World S.Db)
        → get_object S u n p w ≡ returned (seen_by u (object_at w.db n p), w)
    unfolding get_object
    get_object_lem u n p w = rw (
      run_param_query_lem S w.db get_object_query (u ∷ n ∷ p ∷ []) (L.runs_get_object w.db u n p),
      L.rows_get_object w.db u n p,
      L.after_get_object w.db u n p,
      first_object-owned u (object_at w.db n p),
    )

  pub is_empty-seen_by :
      (u n p : Bytes) (db : S.Db)
      → HasIds db
      → is_empty (seen_by u (object_at db n p)).id ≡ not (owns u n p db)
  is_empty-seen_by u n p db h = elim (Option-cases (object_at db n p)) [
    | inl e ↦ rw e
    | inr (r, e) ↦ rw e (ground (arith, h n p r e))
  ]
