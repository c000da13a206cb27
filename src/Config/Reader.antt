-- ===== src/Config/Reader.antt =====
-- src/config/parser.cpp: `read_json_config`.
use asio_ftp.Base.{
  ◌==◌, Bool, not, Option, none, some, List, [], ◌∷◌, ◌++◌, Bytes, codes, same, is_empty,
  if◌then◌else◌, Map, put_key, Result, returned, thrown, runtime_error, program_error, ◌>>=◌,
}
use asio_ftp.Database.Disk.{Disk, directory_exists, file_exists, create_directory}
use asio_ftp.Config.Json.{
  Json, JsonKind, bool_kind, int64_kind, uint64_kind, array_kind, object_kind, same_kind, as_bool,
  as_int64, as_array,
}
use asio_ftp.Config.Defaults.{
  ParsedConfig, no_config, to_int, config_directory, config_file, user_fields, make_default_json,
}

-- `CONFIG_VALUE_TYPE_MAP`
unfoldable pub config_value_type : Bytes → Option JsonKind
config_value_type key =
    if same key (codes "secure")
    then some bool_kind
    else if same key (codes "port")
    then some int64_kind
    else if same key (codes "users")
    then some array_kind
    else none

-- The lines that `std::getline` reads: behind the last line break there is one only if a byte is.
unfoldable pub text_lines : Bytes → Bytes → List Bytes
text_lines line [] = if is_empty line then [] else line ∷ []
text_lines line (c ∷ s) =
    let ended = text_lines [] s in
    let longer = text_lines (line ++ c ∷ []) s in if c == b'\n' then line ∷ ended else longer

module _ (J : Json) where
  open J use {Value, Parser}

  -- `while (std::getline(cfg_ifstream, line))`
  unfoldable pub parse_lines : List Bytes → Parser → Result Parser
  parse_lines [] parser = returned parser
  parse_lines (line ∷ lines) parser =
      if J.write_fails parser line
      then thrown runtime_error
      else parse_lines lines (J.written parser line)

  unfoldable pub parse_config : List Bytes → Result Value
  unfolding parse_lines
  parse_config lines = do
    parser ← parse_lines lines J.parser
    (if J.finish_fails parser then thrown runtime_error else returned (J.release parser))

  -- One element of the array of users. One that is no object is left out.
  unfoldable pub read_user : Value → Map → Result Map
  read_user v users =
      if same_kind (J.kind v) object_kind
      then (do
        (name, password) ← user_fields J (J.held_object v) ([], [])
        returned (put_key name password users))
      else returned users

  unfoldable pub read_users : List Value → Map → Result Map
  unfolding read_user
  read_users [] users = returned users
  read_users (v ∷ values) users = read_user v users >>= read_users values

  -- `switch (i->value().kind())`. An integer that is not the port falls through to the default.
  unfoldable pub use_value : JsonKind → Bytes → Value → ParsedConfig → Result ParsedConfig
  unfolding read_users
  use_value array_kind key v cfg = do
    values ← as_array J v
    users ← read_users values cfg.users
    returned (record cfg { users = users })
  use_value bool_kind key v cfg =
      if same key (codes "secure")
      then (do secure ← as_bool J v; returned (record cfg { secure = secure }))
      else returned cfg
  use_value int64_kind key v cfg =
      if same key (codes "port")
      then (do port ← as_int64 J v; returned (record cfg { port = to_int port }))
      else thrown program_error
  use_value uint64_kind key v cfg =
      if same key (codes "port")
      then (do port ← as_int64 J v; returned (record cfg { port = to_int port }))
      else thrown program_error
  use_value _ key v cfg = thrown program_error

  -- A member whose key is known, and is to have a kind.
  unfoldable pub read_known : Option JsonKind → Bytes → Value → ParsedConfig → Result ParsedConfig
  read_known none key v cfg = returned cfg
  read_known (some expected) key v cfg =
      if not (same_kind (J.kind v) expected)
      then thrown runtime_error
      else use_value (J.kind v) key v cfg

  unfoldable pub read_members : List (Bytes × Value) → ParsedConfig → Result ParsedConfig
  unfolding read_known
  read_members [] cfg = returned cfg
  read_members ((key, v) ∷ members) cfg =
      read_known (config_value_type key) key v cfg >>= read_members members

  unfoldable pub read_value : Value → Result ParsedConfig
  unfolding read_members
  read_value config =
      if not (same_kind (J.kind config) object_kind)
      then thrown runtime_error
      else read_members (J.held_object config) no_config

  module _ {Db : Type 0} (can_create can_open : Bytes → Bool) where
    -- A file that cannot be opened has no lines.
    unfoldable pub config_lines : Disk Db → List Bytes
    unfolding text_lines
    config_lines d = elim (d.texts config_file) [
      | none ↦ []
      | some text ↦ if can_open config_file then text_lines [] text else []
    ]

    unfoldable pub read_json_config : Disk Db → Result (ParsedConfig × Disk Db)
    unfolding parse_config config_lines
    read_json_config d =
        if not (directory_exists config_directory d)
        then make_default_json J can_create can_open
            ((create_directory can_create config_directory d).1)
        else if not (file_exists config_file d)
        then make_default_json J can_create can_open d
        else do config ← parse_config (config_lines d); cfg ← read_value config; returned (cfg, d)
