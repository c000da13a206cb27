-- ===== src/Start/Backup.antt =====
-- src/main.cpp: the name under which a database is kept.
use asio_ftp.Base.{ℕ, ◌-◌, ◌≤◌, ◌≡◌, Bool, false, IsFirst, count_while-IsFirst}
use asio_ftp.Database.Disk.{Disk, file_exists}
use asio_ftp.Start.Main.{backup_file, backup_index}

module _ {Db : Type 0} (d : Disk Db) where
  abbrev pub is_taken : ℕ → Bool
  is_taken i = file_exists (backup_file i) d

  -- With a free name at or behind the first one, and as much fuel as there are names between: the
  -- search ends at a free name, no later than that one, and every name before it is taken.
  pub backup_index-IsFirst :
      (fuel i j : ℕ)
      → is_taken j ≡ false
      → i ≤ j
      → j - i ≤ fuel
      → IsFirst is_taken i (backup_index fuel i d) × (backup_index fuel i d ≤ j)
  unfolding backup_index
  backup_index-IsFirst fuel i j free le enough =
      count_while-IsFirst is_taken fuel i j free le enough
