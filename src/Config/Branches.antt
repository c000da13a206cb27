-- ===== src/Config/Branches.antt =====
-- src/config/parser.cpp: the branch of `read_json_config` that is said not to be reached.
use asio_ftp.Base.{
  ◌≡◌, ◌≢◌, sym, ◌∙◌, ap, false, some, List, [], ◌∷◌, Bytes, codes, same, Bool-cases, inl, inr, Map,
  thrown, program_error, >>=-spares, arith,
}
use asio_ftp.Config.Json.{
  Json, JsonKind, bool_kind, int64_kind, array_kind, same_kind, same_kind→≡, as_bool, as_int64,
  as_string, as_array,
}
use asio_ftp.Config.Defaults.{ParsedConfig, user_field, user_fields}
use asio_ftp.Config.Reader.{
  config_value_type, read_user, read_users, use_value, read_known, read_members,
}
use asio_ftp.Config.Keys.{by_key}

module _ (J : Json) where
  open J use {Value}

  as_string_spares : (v : Value) → as_string J v ≢ thrown program_error
  unfolding as_string
  as_string_spares v e = ground (arith, e)

  user_field_spares :
      (m : Bytes × Value) (named : Bytes × Bytes) → user_field J m named ≢ thrown program_error
  unfolding user_field as_string
  user_field_spares (key, v) (name, password) e = ground (arith, e)

  user_fields_spares :
      (members : List (Bytes × Value)) (named : Bytes × Bytes)
      → user_fields J members named ≢ thrown program_error
  unfolding user_fields
  user_fields_spares [] named e = cc
  user_fields_spares (m ∷ members) named e =
      >>=-spares (user_field J m named) (user_fields J members) program_error
        (user_field_spares m named) (user_fields_spares members) e

  read_user_spares : (v : Value) (users : Map) → read_user J v users ≢ thrown program_error
  unfolding read_user
  read_user_spares v users e = ground (arith, e, user_fields_spares (J.held_object v) ([], []))

  read_users_spares :
      (values : List Value) (users : Map) → read_users J values users ≢ thrown program_error
  unfolding read_users
  read_users_spares [] users e = cc
  read_users_spares (v ∷ values) users e =
      >>=-spares (read_user J v users) (read_users J values) program_error
        (read_user_spares v users) (read_users_spares values) e

  -- What a key stands for with a value of its kind.
  abbrev Spares : Bytes → Type 0
  Spares key =
      (v : Value) (cfg : ParsedConfig)
      → read_known J (config_value_type key) key v cfg ≢ thrown program_error

  known_spares :
      (expected : JsonKind) (key : Bytes) (v : Value) (cfg : ParsedConfig)
      → use_value J expected key v cfg ≢ thrown program_error
      → read_known J (some expected) key v cfg ≢ thrown program_error
  unfolding read_known
  known_spares expected key v cfg never e = elim (Bool-cases (same_kind (J.kind v) expected)) [
    | inl right ↦ never (
        ap (λ x. use_value J x key v cfg) (sym (same_kind→≡ (J.kind v) expected right))
        ∙ ground (arith, right, e))
    | inr wrong ↦ ground (arith, wrong, e)
  ]

  secure-Spares : Spares (codes "secure")
  unfolding config_value_type same use_value as_bool
  secure-Spares v cfg = known_spares bool_kind (codes "secure") v cfg (λ e. ground (arith, e))

  port-Spares : Spares (codes "port")
  unfolding config_value_type same use_value as_int64
  port-Spares v cfg = known_spares int64_kind (codes "port") v cfg (λ e. ground (arith, e))

  users-Spares : Spares (codes "users")
  unfolding config_value_type same use_value as_array
  users-Spares v cfg =
      known_spares array_kind (codes "users") v cfg
        (λ e. ground (arith, e, read_users_spares (J.held_array v) cfg.users))

  unknown-Spares :
      (key : Bytes)
      → same key (codes "secure") ≡ false
      → same key (codes "port") ≡ false
      → same key (codes "users") ≡ false
      → Spares key
  unfolding config_value_type read_known
  unknown-Spares key a b c v cfg e = ground (arith, a, b, c, e)

  -- Reading the members of a configuration object never ends in the branch of which the code says
  -- that it is not reached, whatever the members are.
  pub read_members-no_program_error :
      (members : List (Bytes × Value)) (cfg : ParsedConfig)
      → read_members J members cfg ≢ thrown program_error
  unfolding read_members
  read_members-no_program_error [] cfg e = cc
  read_members-no_program_error ((key, v) ∷ members) cfg e =
      >>=-spares (read_known J (config_value_type key) key v cfg) (read_members J members)
        program_error
        (by_key Spares secure-Spares port-Spares users-Spares unknown-Spares key v cfg)
        (read_members-no_program_error members) e
