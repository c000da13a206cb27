-- ===== src/Helpers/Paths/Inverse.antt =====
-- `get_parent_path` and `get_basename` take apart what a directory and a name make.
use asio_ftp.Base.{
  ℕ, zero, suc, ◌-◌, ◌≤◌, ◌<◌, ◌≡◌, ◌≢◌, refl, ap, true, false, none, some, [], ◌∷◌, ◌++◌, Bytes,
  is_empty, find, Lacks, begins_with, length, take, drop, arith, length-append, take_left, same,
  same→≡, Bool-cases, inl, inr,
}
use asio_ftp.Helpers.Paths.{
  slash, is_slash_at, basename_scan, basename_at, get_basename, parent_scan, get_parent_path,
  child_path,
}

-- The text begins with a slash.
abbrev pub IsAbsolute : Bytes → Type 0
IsAbsolute path = is_slash_at path 0 ≡ true

is_slash_at_of_Lacks : (n : Bytes) (j : ℕ) → Lacks slash n → is_slash_at n j ≡ false
unfolding is_slash_at
is_slash_at_of_Lacks [] j h = refl
is_slash_at_of_Lacks (c ∷ n) zero h = ground arith
is_slash_at_of_Lacks (c ∷ n) (suc j) h = is_slash_at_of_Lacks n j h.1

is_slash_at_sep : (d n : Bytes) → is_slash_at (d ++ slash ∷ n) (length d) ≡ true
unfolding is_slash_at
is_slash_at_sep [] n = refl
is_slash_at_sep (c ∷ d) n = is_slash_at_sep d n

is_slash_at_name :
    (d n : Bytes) (k : ℕ) → Lacks slash n → length d < k → is_slash_at (d ++ slash ∷ n) k ≡ false
unfolding is_slash_at
is_slash_at_name d n zero h lt = absurd (omega arith)
is_slash_at_name [] n (suc k) h lt = is_slash_at_of_Lacks n k h
is_slash_at_name (c ∷ d) n (suc k) h lt = is_slash_at_name d n k h (omega arith)

module _ (d n : Bytes) (plain : Lacks slash n) where
  basename_scan_lem :
      (k : ℕ) → length d ≤ k → basename_scan (d ++ slash ∷ n) k ≡ some (suc (length d))
  unfolding basename_scan
  basename_scan_lem zero le =
      let e : length d ≡ 0 = omega arith in
      ground (arith, ap (λ i. is_slash_at (d ++ slash ∷ n) i) e, is_slash_at_sep d n)
  basename_scan_lem (suc k) le =
      ground (arith, basename_scan_lem k, is_slash_at_name d n (suc k) plain, is_slash_at_sep d n)

  parent_scan_lem :
      (k : ℕ) → 1 < length d → length d ≤ k → parent_scan (d ++ slash ∷ n) k ≡ length d
  unfolding parent_scan
  parent_scan_lem zero long le = absurd (omega arith)
  parent_scan_lem (suc zero) long le = absurd (omega arith)
  parent_scan_lem (suc (suc k)) long le = ground (
    arith,
    parent_scan_lem (suc k),
    is_slash_at_name d n (suc (suc k)) plain,
    is_slash_at_sep d n,
  )

drop_behind : (d n : Bytes) (c : ℕ) → drop (suc (length d)) (d ++ c ∷ n) ≡ n
drop_behind [] n c = refl
drop_behind (x ∷ d) n c = drop_behind d n c

find-slash : (d n : Bytes) → find (d ++ slash ∷ n) (slash ∷ []) ≢ none
unfolding find begins_with
find-slash [] n = ground arith
find-slash (c ∷ d) n = ground (arith, find-slash d n)

find-slash_of_Lacks : (n : Bytes) → Lacks slash n → find n (slash ∷ []) ≡ none
unfolding find begins_with
find-slash_of_Lacks [] h = refl
find-slash_of_Lacks (c ∷ n) h = ground (arith, find-slash_of_Lacks n h.1)

is_empty-append : (d n : Bytes) → is_empty (d ++ slash ∷ n) ≡ false
is_empty-append [] n = refl
is_empty-append (c ∷ d) n = refl

get_basename_some :
    (path : Bytes)
    → is_empty path ≡ false
    → find path (slash ∷ []) ≢ none
    → get_basename path ≡ basename_at path (basename_scan path (length path - 1))
unfolding get_basename
get_basename_some path h e = ground arith

-- The name behind the last slash.
pub get_basename-append : (d n : Bytes) → Lacks slash n → get_basename (d ++ slash ∷ n) ≡ n
unfolding basename_at
get_basename-append d n h =
    rw
      (
        get_basename_some _ (is_empty-append d n) (find-slash d n),
        basename_scan_lem d n h (length (d ++ slash ∷ n) - 1)
            (omega (arith, length-append d (slash ∷ n))),
      )
      (drop_behind d n slash)

-- A name with no slash is its own base name.
pub get_basename_of_Lacks : (n : Bytes) → Lacks slash n → get_basename n ≡ n
unfolding get_basename
get_basename_of_Lacks [] h = refl
get_basename_of_Lacks (c ∷ n) h = ground (arith, find-slash_of_Lacks (c ∷ n) h)

absolute-cons : (d : Bytes) → IsAbsolute d → (rest : Bytes) × (d ≡ slash ∷ rest)
unfolding is_slash_at
absolute-cons [] h = cc
absolute-cons (c ∷ d) h = (d, ground arith)

get_parent_path_long :
    (path : Bytes)
    → 1 < length path
    → IsAbsolute path
    → get_parent_path path ≡ take (parent_scan path (length path - 1)) path
unfolding get_parent_path
get_parent_path_long path h a = ground arith

parent_scan_root : (n : Bytes) (k : ℕ) → Lacks slash n → 1 ≤ k → parent_scan (slash ∷ n) k ≡ 1
unfolding parent_scan
parent_scan_root n zero h le = absurd (omega arith)
parent_scan_root n (suc zero) h le = refl
parent_scan_root n (suc (suc k)) h le =
    ground (arith, parent_scan_root n (suc k), is_slash_at_name [] n (suc (suc k)) h)

parent_of_root_entry : (n : Bytes) → Lacks slash n → get_parent_path (slash ∷ n) ≡ slash ∷ []
unfolding get_parent_path
parent_of_root_entry [] plain = refl
parent_of_root_entry (c ∷ n) plain =
    ground (
      arith,
      is_slash_at_sep [] (c ∷ n),
      parent_scan_root (c ∷ n) (length (slash ∷ c ∷ n) - 1) plain,
    )

parent_of_entry :
    (d n : Bytes)
    → IsAbsolute d
    → 1 < length d
    → Lacks slash n
    → get_parent_path (d ++ slash ∷ n) ≡ d
unfolding is_slash_at
parent_of_entry [] n a long plain = absurd (omega arith)
parent_of_entry (c ∷ d) n a long plain =
    let path = (c ∷ d) ++ slash ∷ n in
    let e = length-append (c ∷ d) (slash ∷ n) in
    rw
      (
        get_parent_path_long path (omega (arith, e)) a,
        parent_scan_lem (c ∷ d) n plain (length path - 1) long (omega (arith, e)),
      )
      (take_left (c ∷ d) (slash ∷ n))

long_of_other : (d : Bytes) → IsAbsolute d → same d (slash ∷ []) ≡ false → 1 < length d
unfolding is_slash_at same
long_of_other [] h e = cc
long_of_other (c ∷ []) h e = ground arith
long_of_other (c ∷ b ∷ d) h e = omega arith

-- The parent and the base name of an entry's path are the directory and the name it was made of,
-- for an absolute directory and a name with no slash.
pub parent_basename-child :
    (d n : Bytes)
    → IsAbsolute d
    → Lacks slash n
    → (get_parent_path (child_path d n) ≡ d) × (get_basename (child_path d n) ≡ n)
unfolding child_path
parent_basename-child d n h plain = elim (Bool-cases (same d (slash ∷ []))) [
  | inl root ↦
      let e = same→≡ d (slash ∷ []) root in
      rw (root, e) (parent_of_root_entry n plain, get_basename-append [] n plain)
  | inr other ↦
      rw other
        (parent_of_entry d n h (long_of_other d h other) plain, get_basename-append d n plain)
]
