-- ===== src/Database/Users/Lookups.antt =====
-- What the queries of the users return, in terms of the tables.
use asio_ftp.Base.{
  ◌≡◌, refl, Bool, false, Option, none, some, [], ◌∷◌, Bytes, same, returned, c_string,
  Option-cases, inl, inr,
}
use asio_ftp.Database.Sqlite.{Sqlite, run_param_query_lem, collect_rows}
use asio_ftp.Database.Schema.{
  UserRow, Tables, IsLawful, get_id_by_name_query, get_password_by_id_query,
}
use asio_ftp.Database.World.{World}
use asio_ftp.Database.Users.{get_id_by_name, check_password}

-- The identifier of a user, or the empty text.
abbrev pub id_of : Option UserRow → Bytes
id_of none = []
id_of (some v) = c_string v.user_id

-- Whether a text is the password that is kept.
abbrev pub opens : Option Bytes → Bytes → Bool
opens none password = false
opens (some kept) password = same (c_string kept) password

module _ (S : Sqlite) (T : Tables S) (L : IsLawful S T) where
  open T use {user_named, password_of}

  pub get_id_by_name_lem :
      (name : Bytes) (w : World S.Db)
      → get_id_by_name S name w ≡ returned (id_of (user_named w.db name), w)
  unfolding get_id_by_name collect_rows
  get_id_by_name_lem name w =
      rw
        (
          run_param_query_lem S w.db get_id_by_name_query (name ∷ []) (L.runs_get_id w.db name),
          L.rows_get_id w.db name,
          L.after_get_id w.db name,
        )
        (elim (Option-cases (user_named w.db name)) [ inl e ↦ rw e refl | inr (v, e) ↦ rw e refl ])

  pub check_password_lem :
      (id password : Bytes) (w : World S.Db)
      → check_password S id password w ≡ returned (opens (password_of w.db id) password, w)
  unfolding check_password collect_rows
  check_password_lem id password w =
      rw
        (
          run_param_query_lem S w.db get_password_by_id_query (id ∷ [])
              (L.runs_get_password w.db id),
          L.rows_get_password w.db id,
          L.after_get_password w.db id,
        )
        (elim (Option-cases (password_of w.db id)) [ inl e ↦ rw e refl | inr (v, e) ↦ rw e refl ])
