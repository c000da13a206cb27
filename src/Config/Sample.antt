-- ===== src/Config/Sample.antt =====
-- Values of JSON in memory, and a parser of the default settings: what src/config/parser.cpp uses of
-- boost::json, with which the theorems are tried.
use asio_ftp.Base.{
  ℕ, arith, if◌then◌else◌, ℤ, pos, ◌≡◌, refl, sym, ap, ◌∙◌, Bool, false, not, List, [], ◌∷◌, ◌++◌,
  append_assoc, append-nil, Bytes, codes, same, same_refl, returned,
}
use asio_ftp.Config.Json.{
  Json, JsonKind, bool_kind, int64_kind, string_kind, array_kind, object_kind,
}
use asio_ftp.Config.Reader.{parse_lines, parse_config}
use asio_ftp.Config.Layout.{
  Place, outside, place_behind, is_blank, AllBlank, Respaced, done, char, spaced,
  place_behind-structural, joined,
}
use asio_ftp.Config.Fresh.{IsLawful, default_text}

-- A character without the white space outside of strings.
abbrev kept : Place → ℕ → Bytes
kept outside c = if is_blank c then [] else c ∷ []
kept _ c = c ∷ []

-- The text without it.
abbrev strip : Place → Bytes → Bytes
strip place [] = []
strip place (c ∷ s) = kept place c ++ strip (place_behind place c) s

strip-blank : (w s : Bytes) → AllBlank w → strip outside (w ++ s) ≡ strip outside s
unfolding place_behind
strip-blank [] s h = refl
strip-blank (c ∷ w) s h = ground (arith, h.0, strip-blank w s h.1)

Respaced-strip : (place : Place) (s t : Bytes) → Respaced place s t → strip place t ≡ strip place s
Respaced-strip place _ _ done = refl
Respaced-strip place _ _ (char {s = s} {t = t} c r) =
    ap (λ x. kept place c ++ x) (Respaced-strip (place_behind place c) s t r)
Respaced-strip _ _ _ (spaced {s = s} {t = t} before behind c h blank blank' r) =
    strip-blank before (c ∷ (behind ++ t)) blank
    ∙ ap (λ x. kept outside c ++ x)
        (ap (λ p. strip p (behind ++ t)) (place_behind-structural c h)
          ∙ strip-blank behind t blank'
          ∙ Respaced-strip outside s t r
          ∙ ap (λ p. strip p s) (sym (place_behind-structural c h)))

mutual
  pub data Value : Type 0 where
    bool_value : Bool → Value
    int_value : ℤ → Value
    string_value : Bytes → Value
    array_value : Values → Value
    object_value : Members → Value

  pub data Values : Type 0 where
    no_values : Values
    more_values : Value → Values → Values

  pub data Members : Type 0 where
    no_members : Members
    more_members : Bytes → Value → Members → Members

abbrev to_values : List Value → Values
to_values [] = no_values
to_values (v ∷ vs) = more_values v (to_values vs)

abbrev of_values : Values → List Value
of_values no_values = []
of_values (more_values v vs) = v ∷ of_values vs

abbrev to_members : List (Bytes × Value) → Members
to_members [] = no_members
to_members ((k, v) ∷ ms) = more_members k v (to_members ms)

abbrev of_members : Members → List (Bytes × Value)
of_members no_members = []
of_members (more_members k v ms) = (k, v) ∷ of_members ms

of-to_values : (vs : List Value) → of_values (to_values vs) ≡ vs
of-to_values [] = refl
of-to_values (v ∷ vs) = rw (of-to_values vs)

of-to_members : (ms : List (Bytes × Value)) → of_members (to_members ms) ≡ ms
of-to_members [] = refl
of-to_members ((k, v) ∷ ms) = rw (of-to_members ms)

abbrev kind_of : Value → JsonKind
kind_of (bool_value b) = bool_kind
kind_of (int_value n) = int64_kind
kind_of (string_value s) = string_kind
kind_of (array_value vs) = array_kind
kind_of (object_value ms) = object_kind

abbrev bool_in : Value → Bool
bool_in (bool_value b) = b
bool_in _ = false

abbrev int_in : Value → ℤ
int_in (int_value n) = n
int_in _ = pos 0

abbrev string_in : Value → Bytes
string_in (string_value s) = s
string_in _ = []

abbrev array_in : Value → List Value
array_in (array_value vs) = of_values vs
array_in _ = []

abbrev object_in : Value → List (Bytes × Value)
object_in (object_value ms) = of_members ms
object_in _ = []

abbrev defaults : Value
defaults = object_value (
    more_members (codes "secure") (bool_value false) (
      more_members (codes "port") (int_value (pos 6921)) (
        more_members (codes "users")
          (array_value (
            more_values
              (object_value (
                more_members (codes "name") (string_value (codes "guest"))
                  (more_members (codes "password") (string_value (codes "12345")) no_members)))
              no_values))
          no_members)))

-- The parser keeps what it was given, and at the end takes nothing but the default settings.
abbrev pub sample_json : Json
sample_json = record {
  Value = Value;
  kind = kind_of;
  held_bool = bool_in;
  held_int64 = int_in;
  held_string = string_in;
  held_array = array_in;
  held_object = object_in;
  of_bool = bool_value;
  of_int = int_value;
  of_string = string_value;
  of_array = λ vs. array_value (to_values vs);
  of_object = λ ms. object_value (to_members ms);
  serialize = λ ms. default_text;
  Parser = Bytes;
  parser = [];
  write_fails = λ p line. false;
  written = λ p line. p ++ line;
  finish_fails = λ p. not (same (strip outside p) (strip outside default_text));
  release = λ p. defaults;
}

parse_lines_lem :
    (lines : List Bytes) (p : Bytes)
    → parse_lines sample_json lines p ≡ returned (p ++ joined lines)
unfolding parse_lines
parse_lines_lem [] p = ap returned (sym (append-nil p))
parse_lines_lem (line ∷ lines) p =
    parse_lines_lem lines (p ++ line) ∙ ap returned (append_assoc p line (joined lines))

parse_config_lem :
    (lines : List Bytes)
    → Respaced outside default_text (joined lines)
    → parse_config sample_json lines ≡ returned defaults
unfolding parse_config
parse_config_lem lines r =
    rw
      (
        parse_lines_lem lines [],
        Respaced-strip outside default_text (joined lines) r,
        same_refl (strip outside default_text),
      )
      refl

pub sample_json-IsLawful : IsLawful sample_json
sample_json-IsLawful = record {
  bool_made = λ b. (refl, refl);
  int_made = λ n. (refl, refl);
  string_made = λ s. (refl, refl);
  array_made = λ vs. (refl, of-to_values vs);
  object_made = λ ms. (refl, of-to_members ms);
  serialized = refl;
  reparsed = parse_config_lem;
}
