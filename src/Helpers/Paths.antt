-- ===== src/Helpers/Paths.antt =====
-- src/helpers.cpp: `get_basename` and `get_parent_path`, with their backward scans.
pub mod Inverse
pub mod Parents
use asio_ftp.Base.{
  ℕ, zero, suc, ◌+◌, ◌-◌, Bool, true, false, Option, none, some, [], ◌∷◌, Bytes, is_empty, find,
  get_elem?, length, take, drop, leb, ◌==◌, if◌then◌else◌, begins_with, same, ◌++◌,
}

abbrev pub slash : ℕ
slash = b'/'

-- `path[i] == '/'`
unfoldable pub is_slash_at : Bytes → ℕ → Bool
is_slash_at path i = elim (get_elem? path i) [ none ↦ false | some c ↦ c == slash ]

-- The scan of `get_basename`: the index behind the last slash at or below `i`. `none` stands for
-- the index that would pass below 0.
basename_scan : Bytes → ℕ → Option ℕ
basename_scan path zero = if is_slash_at path 0 then some 1 else none
basename_scan path (suc i) =
    let rest = basename_scan path i in if is_slash_at path (suc i) then some (suc (suc i)) else rest

basename_at : Bytes → Option ℕ → Bytes
basename_at path none = []
basename_at path (some i) = drop i path

unfoldable pub get_basename : Bytes → Bytes
unfolding basename_scan basename_at is_slash_at find begins_with
get_basename path = if is_empty path then [] else elim (find path (slash ∷ [])) [
  | none ↦ path
  | some _ ↦ basename_at path (basename_scan path (length path - 1))
]

-- The scan of `get_parent_path`, `while (i > 1)`.
parent_scan : Bytes → ℕ → ℕ
parent_scan path zero = zero
parent_scan path (suc zero) = suc zero
parent_scan path (suc (suc i)) =
    let rest = parent_scan path (suc i) in
    if is_slash_at path (suc (suc i)) then suc (suc i) else rest

unfoldable pub get_parent_path : Bytes → Bytes
unfolding parent_scan is_slash_at
get_parent_path path =
    if leb (length path) 1
    then slash ∷ []
    else if is_slash_at path 0
    then take (parent_scan path (length path - 1)) path
    else slash ∷ []

-- The path of an entry as the sources put it together: the directory, a slash unless the directory
-- is the root, and the name.
unfoldable pub child_path : Bytes → Bytes → Bytes
unfolding same
child_path directory name =
    if same directory (slash ∷ []) then directory ++ name else directory ++ slash ∷ name
