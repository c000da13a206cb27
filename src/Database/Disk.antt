-- ===== src/Database/Disk.antt =====
-- src/database/fs_handler.cpp on a disk of directories, texts and databases. Which of them the process
-- may make or move is a parameter.
use asio_ftp.Base.{
  Bool, true, false, not, ◌&&◌, ◌||◌, Option, none, some, Bytes, same, if◌then◌else◌,
}
use asio_ftp.Database.World.{Files}

pub record Disk (Db : Type 0) : Type 0 where
  pub directories : Bytes → Bool
  pub texts : Files
  pub databases : Bytes → Option Db

abbrev pub is_some {ℓ} : {A : Type ℓ} → Option A → Bool
is_some none = false
is_some (some a) = true

-- What a path leads to after a move from one path to another.
abbrev pub moved : {A : Type 0} → (Bytes → Option A) → Bytes → Bytes → Bytes → Option A
moved at path_to_file new_path_to_file p =
    if same p new_path_to_file then at path_to_file else if same p path_to_file then none else at p

module _ {Db : Type 0} where
  unfoldable pub directory_exists : Bytes → Disk Db → Bool
  directory_exists path_to_directory d = d.directories path_to_directory

  -- `std::filesystem::exists` holds of a directory too.
  unfoldable pub file_exists : Bytes → Disk Db → Bool
  file_exists file_name d =
      d.directories file_name || is_some (d.texts file_name) || is_some (d.databases file_name)

  -- Whether a directory was made, and the disk behind. Nothing is made where something is.
  unfoldable pub create_directory : (Bytes → Bool) → Bytes → Disk Db → Bool × Disk Db
  unfolding file_exists
  create_directory can_create path_to_directory d =
      if can_create path_to_directory && not (file_exists path_to_directory d)
      then (
        true,
        record d { directories = λ p. if same p path_to_directory then true else d.directories p },
      )
      else (false, d)

  -- Whether a file was moved. What stood at the new path is replaced.
  unfoldable pub rename_file : (Bytes → Bool) → Bytes → Bytes → Disk Db → Bool × Disk Db
  unfolding file_exists
  rename_file can_rename path_to_file new_path_to_file d =
      if can_rename path_to_file && file_exists path_to_file d
      then (
        true,
        record d {
          texts = moved d.texts path_to_file new_path_to_file;
          databases = moved d.databases path_to_file new_path_to_file;
        },
      )
      else (false, d)
