-- ===== src/Helpers/Strings.antt =====
-- src/helpers.cpp: `string_split`, `string_join`, `string_to_uppercase`, `string_starts_with` and
-- `string_replace`. A loop's `find_start` is the text from there on.
pub mod Split
pub mod Parts
pub mod Lacking
use asio_ftp.Base.{
  ℕ, zero, suc, ◌+◌, ◌-◌, Bool, true, false, ◌&&◌, ◌||◌, Option, none, some, List, [], ◌∷◌, ◌++◌,
  map, Bytes, is_empty, same, find, begins_with, length, take, drop, ltb, if◌then◌else◌,
}

-- The loop of `string_split`. A round takes at least one byte of a text with a delimiter.
unfoldable pub split_loop : ℕ → Bytes → Bytes → List Bytes
split_loop zero rest delimiter = []
split_loop (suc fuel) rest delimiter = elim (find rest delimiter) [
  | none ↦ rest ∷ []
  | some index ↦ take index rest ∷ split_loop fuel (drop (index + length delimiter) rest) delimiter
]

unfoldable pub string_split : Bytes → Bytes → List Bytes
unfolding split_loop find begins_with
string_split input delimiter =
    if is_empty input
    then []
    else if is_empty delimiter || ltb (length input) (length delimiter)
    then input ∷ []
    else split_loop (suc (length input)) input delimiter

-- The loop of `string_join` and the last element behind it.
join_loop : List Bytes → Bytes → Bytes → Bytes
join_loop [] separator joined = joined
join_loop (part ∷ []) separator joined = joined ++ part
join_loop (part ∷ next ∷ parts) separator joined =
    join_loop (next ∷ parts) separator ((joined ++ part) ++ separator)

unfoldable pub string_join : List Bytes → Bytes → Bytes
unfolding join_loop
string_join input separator = if is_empty input then [] else join_loop input separator []

abbrev pub upper : ℕ → ℕ
upper c = if ltb c b'a' || ltb b'z' c then c else c - 32

unfoldable pub string_to_uppercase : Bytes → Bytes
string_to_uppercase input = map upper input

unfoldable pub string_starts_with : Bytes → Bytes → Bool
string_starts_with input prefix =
    ltb (length prefix) (length input) && same (take (length prefix) input) prefix

-- The loop of `string_replace`: `replaced` grows by what stands before a match and the new text.
replace_loop : ℕ → Bytes → Bytes → Bytes → Bytes → Bytes
replace_loop zero rest search replace replaced = []
replace_loop (suc fuel) rest search replace replaced = elim (find rest search) [
  | none ↦ replaced ++ rest
  | some found ↦
      replace_loop fuel (drop (found + length search) rest) search replace
        ((replaced ++ take found rest) ++ replace)
]

unfoldable pub string_replace : Bytes → Bytes → Bytes → Bytes
unfolding replace_loop find begins_with same
string_replace input search replace =
    if is_empty input
      || is_empty search
      || ltb (length input) (length search)
      || same search replace
    then input
    else replace_loop (suc (length input)) input search replace []
