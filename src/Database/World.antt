-- ===== src/Database/World.antt =====
-- What the database classes and the sessions share: the database, the files under `data/`, and the
-- random numbers drawn so far. src/database/fs_handler.cpp: `remove_file`.
use asio_ftp.Base.{
  ℕ, Bool, true, false, Option, none, some, Bytes, same, if◌then◌else◌, ◌++◌, codes,
}

-- The files by path. A file that the process cannot create has no contents.
abbrev pub Files : Type 0
Files = Bytes → Option Bytes

abbrev pub write_file : Files → Bytes → Bytes → Files
write_file files path contents p = if same p path then some contents else files p

abbrev pub delete_file : Files → Bytes → Files
delete_file files path p = if same p path then none else files p

pub record World (Db : Type 0) : Type 0 where
  pub db : Db
  pub files : Files
  pub draws : ℕ

-- Whether there was a file to remove, and the files behind.
unfoldable pub remove_file : Bytes → Files → Bool × Files
remove_file path files =
    (elim (files path) [ none ↦ false | some _ ↦ true ], delete_file files path)

-- The file that holds an object's contents.
abbrev pub data_file : Bytes → Bytes
data_file id = codes "data/" ++ id
