-- ===== src/Tests/Settings.antt =====
-- The theorems on the configuration, tried on JSON values in memory.
use asio_ftp.Base.{
  pos, to_signed, to_unsigned, ◌≡◌, refl, Bool, true, false, none, List, [], ◌∷◌, Bytes, codes,
  same, returned,
}
use asio_ftp.Database.Disk.{Disk, file_exists}
use asio_ftp.Database.Memory.{Memory}
use asio_ftp.Config.Json.{as_bool, as_int64, same_kind}
use asio_ftp.Config.Defaults.{ParsedConfig, no_config, to_int, beautify}
use asio_ftp.Config.Reader.{
  config_value_type, text_lines, use_value, read_known, read_members, read_json_config,
}
use asio_ftp.Config.Layout.{outside, Respaced, joined, lines-beautify}
use asio_ftp.Config.Keys.{read_members-last}
use asio_ftp.Config.Fresh.{default_text, default_text-IsQuiet, guest_config, read_json_config-again}
use asio_ftp.Config.Sample.{
  Value, bool_value, int_value, string_value, sample_json, sample_json-IsLawful,
}

-- A port above 65535, an unknown key, and encryption.
abbrev settings : List (Bytes × Value)
settings =
    (codes "port", int_value (pos 65557))
    ∷ (codes "host", string_value (codes "x"))
    ∷ (codes "secure", bool_value true)
    ∷ []

abbrev wide : ParsedConfig
wide = record no_config { secure = true; port = pos 65557 }

wide_read : read_members sample_json settings no_config ≡ returned wide
unfolding read_members read_known config_value_type use_value same same_kind as_bool as_int64
    to_signed to_unsigned
wide_read = refl

read_members-last_example : (true ≡ true) × (pos 65557 ≡ to_int (pos 65557))
unfolding same
read_members-last_example = read_members-last sample_json settings no_config wide wide_read

lines-beautify_example :
    Respaced outside default_text (joined (text_lines [] (beautify (pos 0) default_text)))
lines-beautify_example = lines-beautify default_text (pos 0) default_text-IsQuiet

abbrev empty_disk : Disk Memory
empty_disk = record { directories = λ p. false; texts = λ p. none; databases = λ p. none }

abbrev anything : Bytes → Bool
anything p = true

read_json_config-again_example :
    (d' : Disk Memory) × (read_json_config sample_json anything anything empty_disk
      ≡ returned (guest_config, d'))
    × (read_json_config sample_json anything anything d' ≡ returned (guest_config, d'))
unfolding file_exists
read_json_config-again_example =
    read_json_config-again sample_json sample_json-IsLawful anything anything empty_disk refl refl
      refl
