-- ===== src/Config/Defaults.antt =====
-- src/config/parser.cpp, src/config/parser.hpp: the default settings, and `make_default_json`, which
-- writes them with line breaks and indentation.
use asio_ftp.Base.{
  ℕ, zero, suc, ℤ, pos, succ, pred, rounds, to_signed, ◌==◌, Bool, false, ◌||◌, List, [], ◌∷◌, ◌++◌,
  Bytes, codes, same, if◌then◌else◌, Map, put_key, Result, returned, thrown, out_of_bounds, ◌>>=◌,
}
use asio_ftp.Database.World.{write_file}
use asio_ftp.Database.Disk.{Disk, create_directory}
use asio_ftp.Config.Json.{Json, as_bool, as_int64, as_string, as_object}

pub record ParsedConfig : Type 0 where
  pub secure : Bool
  pub port : ℤ
  pub users : Map

abbrev pub no_config : ParsedConfig
no_config = record { secure = false; port = pos 6921; users = [] }

-- `int` has 32 bits.
abbrev pub to_int : ℤ → ℤ
to_int = to_signed 31

abbrev pub config_directory : Bytes
config_directory = codes "config"

abbrev pub config_file : Bytes
config_file = codes "config/config.json"

-- One step of a line of the file: four spaces for each level.
unfoldable pub indentation : ℕ → Bytes
indentation zero = []
indentation (suc n) = codes "    " ++ indentation n

abbrev pub opens_level : ℕ → Bool
opens_level c = c == b'{' || c == b'['

abbrev pub closes_level : ℕ → Bool
closes_level c = c == b'}' || c == b']'

-- The level behind a character, and what is written for it.
unfoldable pub level_behind : ℤ → ℕ → ℤ
level_behind indent c =
    if opens_level c then succ indent else if closes_level c then pred indent else indent

unfoldable pub written_for : ℤ → ℕ → Bytes
unfolding indentation level_behind
written_for indent c =
    let margin = indentation (rounds (level_behind indent c)) in
    if opens_level c
    then c ∷ b'\n' ∷ margin
    else if closes_level c
    then b'\n' ∷ margin ++ c ∷ []
    else if c == b','
    then c ∷ b'\n' ∷ margin
    else if c == b':'
    then c ∷ b' ' ∷ []
    else c ∷ []

-- `beautify json string then write to file`
unfoldable pub beautify : ℤ → Bytes → Bytes
unfolding written_for level_behind
beautify indent [] = []
beautify indent (c ∷ s) = written_for indent c ++ beautify (level_behind indent c) s

module _ (J : Json) where
  open J use {Value, of_bool, of_int, of_string, of_array, of_object}

  abbrev pub default_users : List Value
  default_users =
      of_object (
        (codes "name", of_string (codes "guest"))
        ∷ (codes "password", of_string (codes "12345"))
        ∷ [])
      ∷ []

  abbrev pub default_config : List (Bytes × Value)
  default_config =
      (codes "secure", of_bool false)
      ∷ (codes "port", of_int (pos 6921))
      ∷ (codes "users", of_array default_users)
      ∷ []

  -- `find(key)->value()`; there is no value behind the end.
  unfoldable pub member : Bytes → List (Bytes × Value) → Result Value
  member key [] = thrown out_of_bounds
  member key ((k, v) ∷ members) =
      let rest = member key members in if same k key then returned v else rest

  -- The name and the password that one member of a user changes.
  unfoldable pub user_field : Bytes × Value → Bytes × Bytes → Result (Bytes × Bytes)
  user_field (key, v) (name, password) =
      if same key (codes "name")
      then (do text ← as_string J v; returned (text, password))
      else if same key (codes "password")
      then (do text ← as_string J v; returned (name, text))
      else returned (name, password)

  unfoldable pub user_fields : List (Bytes × Value) → Bytes × Bytes → Result (Bytes × Bytes)
  unfolding user_field
  user_fields [] named = returned named
  user_fields (m ∷ members) named = user_field m named >>= user_fields members

  -- The loop over `DEFAULT_USERS`.
  unfoldable pub default_user_map : List Value → Map → Result Map
  unfolding user_fields
  default_user_map [] users = returned users
  default_user_map (v ∷ values) users = do
    members ← as_object J v
    (name, password) ← user_fields members ([], [])
    default_user_map values (put_key name password users)

  module _ {Db : Type 0} (can_create can_open : Bytes → Bool) where
    -- A file that cannot be opened takes no text, and nothing says so.
    unfoldable pub write_config : Bytes → Disk Db → Disk Db
    write_config text d =
        if can_open config_file then record d { texts = write_file d.texts config_file text } else d

    unfoldable pub make_default_json : Disk Db → Result (ParsedConfig × Disk Db)
    unfolding write_config beautify default_user_map member
    make_default_json d = do
      let made = (create_directory can_create config_directory d).1
      let stored = write_config (beautify (pos 0) (J.serialize default_config)) made
      secure_value ← member (codes "secure") default_config
      secure ← as_bool J secure_value
      port_value ← member (codes "port") default_config
      port ← as_int64 J port_value
      users ← default_user_map default_users []
      returned (record { secure = secure; port = to_int port; users = users }, stored)
