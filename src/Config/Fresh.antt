-- ===== src/Config/Fresh.antt =====
-- src/config/parser.cpp: a first start without a configuration, and the start after it.
use asio_ftp.Base.{
  ℤ, pos, to_signed, to_unsigned, ◌≡◌, refl, sym, ◌∙◌, subst, Bool, true, false, List, [], ◌∷◌,
  ◌||◌, Bytes, codes, same, if◌then◌else◌, put_key, returned, ◌>>=◌, arith,
}
use asio_ftp.Database.World.{write_file}
use asio_ftp.Database.Disk.{Disk, directory_exists, file_exists, create_directory}
use asio_ftp.Config.Json.{
  Json, bool_kind, int64_kind, string_kind, array_kind, object_kind, same_kind, as_bool, as_int64,
  as_string, as_array, as_object,
}
use asio_ftp.Config.Defaults.{
  ParsedConfig, to_int, config_directory, config_file, default_users, default_config, member,
  user_field, user_fields, default_user_map, write_config, beautify, make_default_json,
}
use asio_ftp.Config.Reader.{
  config_value_type, text_lines, parse_config, read_user, read_users, use_value, read_known,
  read_members, read_value, config_lines, read_json_config,
}
use asio_ftp.Config.Layout.{outside, Respaced, joined, IsQuiet, place_behind, lines-beautify}

abbrev pub default_text : Bytes
default_text =
    codes "{\"secure\":false,\"port\":6921,\"users\":[{\"name\":\"guest\",\"password\":\"12345\"}]}"

module _ (J : Json) where
  open J use {kind, of_bool, of_int, of_string, of_array, of_object}

  -- What the code relies on of boost::json.
  pub record IsLawful : Type 0 where
    pub bool_made : (b : Bool) → (kind (of_bool b) ≡ bool_kind) × (J.held_bool (of_bool b) ≡ b)
    pub int_made : (n : ℤ) → (kind (of_int n) ≡ int64_kind) × (J.held_int64 (of_int n) ≡ n)
    pub string_made :
        (s : Bytes) → (kind (of_string s) ≡ string_kind) × (J.held_string (of_string s) ≡ s)
    pub array_made :
        (vs : List J.Value) → (kind (of_array vs) ≡ array_kind) × (J.held_array (of_array vs) ≡ vs)
    pub object_made :
        (ms : List (Bytes × J.Value))
        → (kind (of_object ms) ≡ object_kind) × (J.held_object (of_object ms) ≡ ms)
    -- Serializing puts no white space between tokens.
    pub serialized : J.serialize (default_config J) ≡ default_text
    -- Parsing a serialized object gives its value back, in whatever pieces, and with white space before
    -- and behind its brackets, commas and colons.
    pub reparsed :
        (lines : List Bytes)
        → Respaced outside (J.serialize (default_config J)) (joined lines)
        → parse_config J lines ≡ returned (of_object (default_config J))

pub default_text-IsQuiet : IsQuiet outside default_text
unfolding place_behind
default_text-IsQuiet = ground arith

or_true : (b : Bool) → (b || true) ≡ true
or_true b = ground arith

abbrev pub guest_config : ParsedConfig
guest_config = record {
  secure = false;
  port = pos 6921;
  users = put_key (codes "guest") (codes "12345") [];
}

module _ (J : Json) (L : IsLawful J) where
  open J use {Value}

  bool_lem : (b : Bool) → as_bool J (J.of_bool b) ≡ returned b
  unfolding as_bool same_kind
  bool_lem b = rw ((L.bool_made b).0, (L.bool_made b).1) refl

  int_lem : (n : ℤ) → as_int64 J (J.of_int n) ≡ returned n
  unfolding as_int64 same_kind
  int_lem n = rw ((L.int_made n).0, (L.int_made n).1) refl

  string_lem : (s : Bytes) → as_string J (J.of_string s) ≡ returned s
  unfolding as_string same_kind
  string_lem s = rw ((L.string_made s).0, (L.string_made s).1) refl

  array_lem : (vs : List Value) → as_array J (J.of_array vs) ≡ returned vs
  unfolding as_array same_kind
  array_lem vs = rw ((L.array_made vs).0, (L.array_made vs).1) refl

  object_lem : (ms : List (Bytes × Value)) → as_object J (J.of_object ms) ≡ returned ms
  unfolding as_object same_kind
  object_lem ms = rw ((L.object_made ms).0, (L.object_made ms).1) refl

  abbrev guest_members : List (Bytes × Value)
  guest_members =
      (codes "name", J.of_string (codes "guest"))
      ∷ (codes "password", J.of_string (codes "12345"))
      ∷ []

  guest_fields :
      user_fields J
        ((codes "name", J.of_string (codes "guest"))
          ∷ (codes "password", J.of_string (codes "12345"))
          ∷ [])
        ([], [])
      ≡ returned (codes "guest", codes "12345")
  unfolding user_fields user_field same
  guest_fields = rw (string_lem (codes "guest"), string_lem (codes "12345")) refl

  default_users_lem :
      default_user_map J (default_users J) []
      ≡ returned (put_key (codes "guest") (codes "12345") [])
  unfolding default_user_map
  default_users_lem =
      rw
        (
          object_lem (
              (codes "name", J.of_string (codes "guest"))
              ∷ (codes "password", J.of_string (codes "12345"))
              ∷ []),
          guest_fields,
        )
        refl

  port_kept : to_int (pos 6921) ≡ pos 6921
  unfolding to_signed to_unsigned
  port_kept = refl

  make_default_lem :
      {Db : Type 0} (can_create can_open : Bytes → Bool) (d : Disk Db)
      → make_default_json J can_create can_open d
        ≡ returned (
          guest_config,
          write_config J can_create can_open
              (beautify (pos 0) (J.serialize (default_config J)))
              (create_directory can_create config_directory d).1,
        )
  unfolding make_default_json member same
  make_default_lem can_create can_open d =
      rw (bool_lem false, int_lem (pos 6921), default_users_lem, port_kept) refl

  guest_read :
      read_users J (default_users J) [] ≡ returned (put_key (codes "guest") (codes "12345") [])
  unfolding read_users read_user same_kind
  guest_read =
      rw ((L.object_made guest_members).0, (L.object_made guest_members).1, guest_fields) refl

  read_default :
      read_members J (default_config J) (record { secure = false; port = pos 6921; users = [] })
      ≡ returned guest_config
  unfolding read_members config_value_type same read_known use_value same_kind
  read_default =
      rw
        (
          (L.bool_made false).0,
          bool_lem false,
          (L.int_made (pos 6921)).0,
          int_lem (pos 6921),
          (L.array_made (default_users J)).0,
          array_lem (default_users J),
          guest_read,
          port_kept,
        )
        refl

  read_value_lem : read_value J (J.of_object (default_config J)) ≡ returned guest_config
  unfolding read_value same_kind
  read_value_lem =
      rw ((L.object_made (default_config J)).0, (L.object_made (default_config J)).1) read_default

  reread :
      parse_config J (text_lines [] (beautify (pos 0) (J.serialize (default_config J))))
      ≡ returned (J.of_object (default_config J))
  reread = L.reparsed (text_lines [] (beautify (pos 0) (J.serialize (default_config J)))) (
      lines-beautify (J.serialize (default_config J)) (pos 0)
        (subst (IsQuiet outside) (sym L.serialized) default_text-IsQuiet))

  module _ {Db : Type 0} (can_create can_open : Bytes → Bool) where
    abbrev with_directory : Disk Db → Disk Db
    with_directory d = record d {
      directories = λ p. if same p config_directory then true else d.directories p;
    }

    made :
        (d : Disk Db)
        → file_exists config_directory d ≡ false
        → can_create config_directory ≡ true
        → (create_directory can_create config_directory d).1 ≡ with_directory d
    unfolding create_directory
    made d missing create = rw (create, missing) refl

    made_again :
        (d : Disk Db)
        → (create_directory can_create config_directory (with_directory d)).1 ≡ with_directory d
    unfolding create_directory file_exists same
    made_again d = ground arith

    first_start :
        (d : Disk Db)
        → file_exists config_directory d ≡ false
        → read_json_config J can_create can_open d
          ≡ make_default_json J can_create can_open
              (create_directory can_create config_directory d).1
    unfolding read_json_config directory_exists file_exists
    first_start d missing = ground (arith, missing)

    written_config :
        (d : Disk Db) (text : Bytes)
        → can_open config_file ≡ true
        → write_config J can_create can_open text d
          ≡ record d { texts = write_file d.texts config_file text }
    unfolding write_config
    written_config d text opens = rw opens refl

    second_start :
        (d : Disk Db) (text : Bytes)
        → can_open config_file ≡ true
        → let d' = record (with_directory d) { texts = write_file d.texts config_file text } in
          read_json_config J can_create can_open d' ≡ (
            parse_config J (text_lines [] text) >>= λ config.
            read_value J config >>= λ cfg. returned (cfg, d'))
    unfolding read_json_config directory_exists file_exists config_lines same
    second_start d text opens = rw (or_true (d.directories config_file), opens) refl

    -- Where there is no directory `config` and the process may make it and the file in it: a first
    -- start has the one user guest, the port 6921 and no encryption, and a second start, which reads
    -- what the first wrote, has the same and writes nothing.
    pub read_json_config-again :
        (d : Disk Db)
        → file_exists config_directory d ≡ false
        → can_create config_directory ≡ true
        → can_open config_file ≡ true
        → (d' : Disk Db) × (read_json_config J can_create can_open d ≡ returned (guest_config, d'))
          × (read_json_config J can_create can_open d' ≡ returned (guest_config, d'))
    read_json_config-again d missing create opens =
        let text = beautify (pos 0) (J.serialize (default_config J)) in
        let d₁ = with_directory d in
        let d' = record d₁ { texts = write_file d₁.texts config_file text } in
        (
          d',
          first_start d missing
              ∙ rw (made d missing create) (
                  make_default_lem can_create can_open d₁
                  ∙ rw
                      (
                        made_again d,
                        written_config d₁ (beautify (pos 0) (J.serialize (default_config J))) opens,
                      )
                      refl),
          second_start d text opens ∙ rw (reread) (rw read_value_lem refl),
        )
