-- ===== src/Tests/Starts.antt =====
-- The theorems on the start of the program, tried on a table of users in memory.
use asio_ftp.Base.{
  ◌/◌, if◌then◌else◌, ℕ, ◌≤◌, ◌<◌, ◌≡◌, ◌↔◌, refl, Bool, true, false, none, some, [], ◌∷◌, Bytes,
  codes, same, returned, pos, find_key, put_key, arith,
}
use asio_ftp.Helpers.Uuid.{generate_uuid_string}
use asio_ftp.Database.Schema.{UserRow}
use asio_ftp.Database.Disk.{file_exists}
use asio_ftp.Database.Connection.{storage_file, data_directory}
use asio_ftp.Config.Defaults.{ParsedConfig}
use asio_ftp.Start.Main.{Host, any_users_changed, users_by_name, backup_file, init_user_table}
use asio_ftp.Start.Accounts.{HasDistinctNames, IsText, creation, password_named, has_id}
use asio_ftp.Start.Backup.{is_taken}
use asio_ftp.Start.Changed.{IsWithin, any_users_changed_iff, or_else}
use asio_ftp.Start.Created.{Holds}
use asio_ftp.Start.Synced.{Ends, init_user_table-synced}
use asio_ftp.Start.Kept.{Leaves, MovedOnly, init_user_table-unmoved, init_user_table-kept}
use asio_ftp.Start.Book.{Book, book_sqlite, book_calls, table_of, book_Accounts}

abbrev anything : Bytes → Bool
anything p = true

abbrev nothing : Bytes → Bool
nothing p = false

abbrev rand : ℕ → ℕ
rand k = k / 64

abbrev old_ann : UserRow
old_ann = record { user_id = codes "u1"; name = codes "ann"; password = codes "old" }

one_user : HasDistinctNames (old_ann ∷ [])
unfolding password_named
one_user = (refl, tt)

one-IsText : IsText old_ann
one-IsText = (
  ((λ e. cc e), ((λ e. cc e), ((λ e. cc e), tt))),
  ((λ e. cc e), ((λ e. cc e), ((λ e. cc e), tt))),
)

abbrev book : Book
book = record { table = some (record { sql = creation; rows = old_ann ∷ [] }); distinct = one_user }

-- Ann has another password now, and Bob is new.
abbrev cfg : ParsedConfig
cfg = record {
  secure = false;
  port = pos 21;
  users =
      record { key = codes "ann"; value = codes "new" }
      ∷ record { key = codes "bob"; value = codes "b" }
      ∷ [];
}

abbrev host : Host Book
host = record {
  disk = record {
    directories = λ p. same p data_directory;
    texts = λ p. none;
    databases = λ p. if same p storage_file then some book else none;
  };
  draws = 0;
}

any_users_changed_iff_example :
    (any_users_changed (record { key = codes "ann"; value = codes "new" } ∷ []) cfg.users ≡ false)
    ↔ IsWithin (record { key = codes "ann"; value = codes "new" } ∷ []) cfg.users
unfolding find_key
any_users_changed_iff_example =
    any_users_changed_iff (record { key = codes "ann"; value = codes "new" } ∷ []) cfg.users
      (refl, tt)

init_user_table-synced_example :
    Ends book_sqlite book_calls table_of book_Accounts rand anything anything anything
      (init_user_table book_sqlite book_calls rand anything anything anything 1 cfg host)
      cfg.users
unfolding same password_named has_id generate_uuid_string any_users_changed users_by_name find_key
    put_key
init_user_table-synced_example =
    init_user_table-synced book_sqlite book_calls table_of book_Accounts rand anything anything
      anything 1 cfg host refl refl refl (refl, (one-IsText, tt)) (refl, (refl, tt))

init_user_table-unmoved_example :
    Leaves book_sqlite book_calls table_of book_Accounts rand anything anything nothing 1 cfg host
      (λ h' db.
        Holds table_of db (λ n. or_else (password_named n (old_ann ∷ [])) (find_key n cfg.users)))
unfolding same has_id generate_uuid_string password_named
init_user_table-unmoved_example =
    init_user_table-unmoved book_sqlite book_calls table_of book_Accounts rand anything anything
      nothing 1 cfg host refl refl refl (refl, (one-IsText, tt)) (refl, (refl, tt))

init_user_table-kept_example :
    (h' : Host Book) × (i : ℕ) × (old : Book) × (init_user_table book_sqlite book_calls rand
        anything anything anything 1 cfg host
      ≡ returned h')
    × (is_taken host.disk i ≡ false)
    × ((k : ℕ) → 1 ≤ k → k < i → is_taken host.disk k ≡ true)
    × ((h'.disk).databases (backup_file i) ≡ some old)
    × (old.table ≡ some (record { sql = creation; rows = old_ann ∷ [] }))
    × (new : Book) × MovedOnly i old new host.disk h'.disk
unfolding same has_id generate_uuid_string any_users_changed users_by_name find_key put_key
    file_exists backup_file password_named
init_user_table-kept_example =
    init_user_table-kept book_sqlite book_calls table_of book_Accounts rand anything anything
      anything 1 0 cfg host refl refl refl (refl, (one-IsText, tt)) (refl, (refl, tt)) refl refl
      (omega arith)
