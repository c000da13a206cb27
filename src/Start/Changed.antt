-- ===== src/Start/Changed.antt =====
-- src/main.cpp: when `any_users_changed` says so, and the map of the users that are in the table.
use asio_ftp.Base.{
  ◌≡◌, ◌↔◌, refl, ap, ◌∙◌, false, Option, none, some, List, [], ◌∷◌, Bytes, same, same_refl, same→≡,
  Bool-cases, Option-cases, inl, inr, Map, Entry, find_key, put_key, find-put, arith,
}
use asio_ftp.Database.Schema.{UserRow}
use asio_ftp.Start.Main.{any_users_changed, users_by_name}
use asio_ftp.Start.Accounts.{password_named, HasDistinctNames, credentials}

-- A key stands once.
abbrev pub IsUnique : Map → Type 0
IsUnique [] = Unit
IsUnique (e ∷ m) = (find_key e.key m ≡ none) × IsUnique m

-- Each key of the first map has the same value in the second.
abbrev pub IsWithin : Map → Map → Type 0
IsWithin m cfg = (k v : Bytes) → find_key k m ≡ some v → find_key k cfg ≡ some v

head_unchanged :
    (e : Entry) (m cfg : Map)
    → any_users_changed (e ∷ m) cfg ≡ false
    → (find_key e.key cfg ≡ some e.value) × (any_users_changed m cfg ≡ false)
unfolding any_users_changed
head_unchanged e m cfg h = elim (Option-cases (find_key e.key cfg)) [
  | inl missing ↦ absurd (ground (arith, missing, h))
  | inr (w, found) ↦ elim (Bool-cases (same w e.value)) [
    | inl equal ↦ (found ∙ ap some (same→≡ w e.value equal), ground (arith, found, equal, h))
    | inr differs ↦ absurd (ground (arith, found, differs, h))
  ]
]

pub unchanged-IsWithin : (m cfg : Map) → any_users_changed m cfg ≡ false → IsWithin m cfg
unfolding find_key
unchanged-IsWithin [] cfg h k v e = cc
unchanged-IsWithin (u ∷ m) cfg h k v e =
    let (here, rest) = head_unchanged u m cfg h in
    elim (Bool-cases (same k u.key)) [
      | inl is ↦ ap (λ x. find_key x cfg) (same→≡ k u.key is) ∙ here ∙ ground (arith, is, e)
      | inr is_not ↦ unchanged-IsWithin m cfg rest k v (ground (arith, is_not, e))
    ]

-- A key behind the first entry is another key.
tail-IsWithin : (e : Entry) (m cfg : Map) → IsUnique (e ∷ m) → IsWithin (e ∷ m) cfg → IsWithin m cfg
unfolding find_key
tail-IsWithin e m cfg u h k v found = elim (Bool-cases (same k e.key)) [
  | inl is ↦ absurd (ground (arith, ap (λ x. find_key x m) (same→≡ k e.key is), u.0, found))
  | inr is_not ↦ h k v (rw is_not found)
]

within-unchanged : (m cfg : Map) → IsUnique m → IsWithin m cfg → any_users_changed m cfg ≡ false
unfolding any_users_changed find_key
within-unchanged [] cfg u h = refl
within-unchanged (e ∷ m) cfg u h =
    let here : find_key e.key cfg ≡ some e.value = h e.key e.value (rw (same_refl e.key) refl) in
    ground (arith, here, same_refl e.value, within-unchanged m cfg u.1 (tail-IsWithin e m cfg u h))

-- Of a map in which each key stands once, the users of the table: there is no change exactly if each
-- of them is configured with the same password. A user that is configured and not in the table is
-- no change.
pub any_users_changed_iff :
    (db_users config_users : Map)
    → IsUnique db_users
    → (any_users_changed db_users config_users ≡ false) ↔ IsWithin db_users config_users
any_users_changed_iff db_users config_users u =
    (unchanged-IsWithin db_users config_users, within-unchanged db_users config_users u)

-- The second where the first has nothing.
abbrev pub or_else : Option Bytes → Option Bytes → Option Bytes
or_else none o = o
or_else (some v) o = some v

-- The map that the start makes of the rows has the password of each name.
pub users_by_name-find :
    (us : List UserRow) (m : Map) (n : Bytes)
    → HasDistinctNames us
    → find_key n (users_by_name (credentials us) m) ≡ or_else (password_named n us) (find_key n m)
unfolding users_by_name password_named
users_by_name-find [] m n h = refl
users_by_name-find (u ∷ us) m n h =
    users_by_name-find us (put_key u.name u.password m) n h.1 ∙ elim (Bool-cases (same n u.name)) [
      | inl is ↦
          rw
            (
              find-put u.name u.password n m,
              is,
              ap (λ x. password_named x us) (same→≡ n u.name is) ∙ h.0,
            )
            refl
      | inr is_not ↦ rw (find-put u.name u.password n m, is_not) refl
    ]
