-- ===== src/Start/Created.antt =====
-- src/main.cpp: the loop that makes the configured users.
use asio_ftp.Base.{
  ℕ, ◌+◌, ◌≡◌, All, refl, sym, ap, subst, ◌∙◌, Bool, false, Option, none, some, List, [], ◌∷◌, ◌++◌,
  Bytes, same, same→≡, if◌then◌else◌, Bool-cases, Option-cases, inl, inr, Map, Entry, find_key,
  returned, arith,
}
use asio_ftp.Helpers.Uuid.{generate_uuid_string}
use asio_ftp.Database.Sqlite.{Sqlite}
use asio_ftp.Database.Schema.{UserRow}
use asio_ftp.Database.World.{World}
use asio_ftp.Database.Disk.{Disk}
use asio_ftp.Database.Connection.{Calls, storage_file, opened_db}
use asio_ftp.Start.Main.{create_users}
use asio_ftp.Start.Accounts.{
  UsersTable, Accounts, IsOurs, IsText, rows_of, creation, password_named, has_id, insert_account,
}
use asio_ftp.Start.Checked.{create_user_lem}
use asio_ftp.Start.Changed.{or_else}

password_append :
    (n : Bytes) (us : List UserRow) (u : UserRow)
    → password_named n (us ++ u ∷ [])
      ≡ or_else (password_named n us) (if same n u.name then some u.password else none)
unfolding password_named
password_append n [] u = refl
password_append n (v ∷ us) u = ground (arith, password_append n us u)

pub none_before : (n : Bytes) (o : Option Bytes) → or_else (password_named n []) o ≡ o
unfolding password_named
none_before n o = refl

or_none : (o : Option Bytes) → or_else o none ≡ o
or_none none = refl
or_none (some v) = refl

or_assoc : (a b c : Option Bytes) → or_else (or_else a b) c ≡ or_else a (or_else b c)
or_assoc none b c = refl
or_assoc (some v) b c = refl

insert_account-password :
    (n : Bytes) (us : List UserRow) (u : UserRow)
    → has_id u.user_id us ≡ false
    → password_named n (insert_account u us)
      ≡ or_else (password_named n us) (if same n u.name then some u.password else none)
insert_account-password n us u free = elim (Option-cases (password_named u.name us)) [
  | inl new ↦ rw (new, free) (password_append n us u)
  | inr (p, taken) ↦ rw taken (elim (Bool-cases (same n u.name)) [
    | inl is ↦ rw (ap (λ x. password_named x us) (same→≡ n u.name is) ∙ taken) refl
    | inr is_not ↦ rw is_not (sym (or_none (password_named n us)))
  ])
]

or_entry :
    (n : Bytes) (user : Entry) (users : Map)
    → or_else (if same n user.key then some user.value else none) (find_key n users)
      ≡ find_key n (user ∷ users)
unfolding find_key
or_entry n user users = ground arith

module _ (rand : ℕ → ℕ) where
  abbrev pub account_of : Entry → ℕ → UserRow
  account_of user draws = record {
    user_id = generate_uuid_string rand draws 64;
    name = user.key;
    password = user.value;
  }

  -- No identifier that is drawn for a user stands in the table by then.
  abbrev pub HasFreshIds : Map → ℕ → List UserRow → Type 0
  HasFreshIds [] draws us = Unit
  HasFreshIds (user ∷ users) draws us =
      (has_id (generate_uuid_string rand draws 64) us ≡ false)
      × HasFreshIds users (draws + 64) (insert_account (account_of user draws) us)

pub texts_of : (o : Option UsersTable) → IsOurs o → All IsText (rows_of o)
texts_of none ours = tt
texts_of (some t) ours = ours.1

module _ (S : Sqlite) (C : Calls S) where
  -- What a start finds in the file of the database.
  abbrev pub found : Disk S.Db → S.Db
  found d = opened_db S C (d.databases storage_file)

module _ {Db : Type 0} (table : Db → Option UsersTable) where
  -- A table of the right structure with the passwords that a function gives.
  abbrev pub Holds : Db → (Bytes → Option Bytes) → Type 0
  Holds db passwords =
      (rows : List UserRow) × (table db ≡ some (record { sql = creation; rows = rows }))
      × ((n : Bytes) → password_named n rows ≡ passwords n)

module _ (S : Sqlite) (C : Calls S) (table : S.Db → Option UsersTable) (A : Accounts S C table)
    (rand : ℕ → ℕ) (can_create can_open can_rename : Bytes → Bool) where
  pub create_users_lem :
      (users : Map) (w : World S.Db) (us : List UserRow)
      → table w.db ≡ some (record { sql = creation; rows = us })
      → HasFreshIds rand users w.draws us
      → (w' : World S.Db) × (create_users S C rand can_create can_open can_rename users w
          ≡ returned w')
        × Holds table w'.db (λ n. or_else (password_named n us) (find_key n users))
  unfolding create_users find_key
  create_users_lem [] w us e fresh = (w, refl, (us, e, λ n. sym (or_none (password_named n us))))
  create_users_lem (user ∷ users) w us e fresh =
      let new = account_of rand user w.draws in
      let (next, made, has, draws) =
        create_user_lem S C table A rand user.key user.value w
          (record { sql = creation; rows = us }) e in
      let (w', rest, (rows, has', passwords)) =
        create_users_lem users next (insert_account new us) has
          (subst (λ k. HasFreshIds rand users k (insert_account new us)) (sym draws) fresh.1) in
      (
        w',
        rw made rest,
        (
          rows,
          has',
          λ n.
              passwords n
              ∙ ap (λ o. or_else o (find_key n users)) (insert_account-password n us new fresh.0)
              ∙ or_assoc (password_named n us) (if same n user.key then some user.value else none)
                  (find_key n users)
              ∙ ap (or_else (password_named n us)) (or_entry n user users),
        ),
      )
