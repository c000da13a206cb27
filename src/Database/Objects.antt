-- ===== src/Database/Objects.antt =====
-- src/database/fs_objects.cpp: the objects of the virtual file system.
pub mod Lookup
pub mod ByPath
pub mod Create
pub mod Outcomes
pub mod Remove
pub mod Update
pub mod Tree
pub mod Keeps
pub mod Siblings
use asio_ftp.Base.{
  ℕ, ◌+◌, Bool, true, false, not, ◌&&◌, List, [], ◌∷◌, ◌++◌, Bytes, same, is_empty, if◌then◌else◌,
  codes, Result, returned, thrown, out_of_bounds, ◌>>=◌,
}
use asio_ftp.Helpers.Decimal.{to_string}
use asio_ftp.Helpers.Paths.{slash, get_basename, get_parent_path}
use asio_ftp.Helpers.Uuid.{generate_uuid_string}
use asio_ftp.Database.Sqlite.{Sqlite, run_param_query}
use asio_ftp.Database.Schema.{
  flag, percent, get_object_query, get_objects_by_path_query, create_object_query,
  update_object_size_query, get_object_ids_with_path_prefix_query,
  delete_object_ids_with_path_prefix_query, delete_object_query,
}
use asio_ftp.Database.World.{Files, World, remove_file, data_file}

pub record FsObject : Type 0 where
  pub id : Bytes
  pub name : Bytes
  pub path : Bytes
  pub size : Bytes
  pub modified_time : Bytes
  pub is_directory : Bool

-- A default-constructed object. Nothing reads `is_directory` of one.
abbrev pub no_object : FsObject
no_object = record {
  id = [];
  name = [];
  path = [];
  size = [];
  modified_time = [];
  is_directory = false;
}

-- The fields from six columns.
abbrev pub object_of : Bytes → Bytes → Bytes → Bytes → Bytes → Bytes → FsObject
object_of id name path size time directory = record {
  id = id;
  name = name;
  path = path;
  size = size;
  modified_time = time;
  is_directory = same directory (codes "1");
}

-- The first object in a query's output, or a default-constructed one.
unfoldable pub first_object : List Bytes → Result FsObject
first_object [] = returned no_object
first_object (id ∷ name ∷ path ∷ size ∷ time ∷ directory ∷ output) =
    returned (object_of id name path size time directory)
first_object output = thrown out_of_bounds

-- The loop of `get_objects_by_path`, six columns to an object.
unfoldable pub read_objects : List Bytes → Result (List FsObject)
read_objects [] = returned []
read_objects (id ∷ name ∷ path ∷ size ∷ time ∷ directory ∷ output) = do
  objects ← read_objects output
  returned (object_of id name path size time directory ∷ objects)
read_objects output = thrown out_of_bounds

-- `for (const std::string &remove_id : object_ids_for_removal)`
unfoldable pub remove_files : List Bytes → Files → Files
unfolding remove_file
remove_files [] files = files
remove_files (id ∷ ids) files = remove_files ids (remove_file (data_file id) files).1

-- The pattern for the paths under a directory.
unfoldable pub path_prefix : Bytes → Bytes → Bytes
path_prefix object_path object_name =
    if same object_path (slash ∷ [])
    then object_path ++ (object_name ++ percent ∷ [])
    else object_path ++ slash ∷ (object_name ++ percent ∷ [])

module _ (S : Sqlite) where
  unfoldable pub get_object : Bytes → Bytes → Bytes → World S.Db → Result (FsObject × World S.Db)
  get_object user_id object_name object_path w = do
    (output, db) ←
        run_param_query S w.db get_object_query (user_id ∷ object_name ∷ object_path ∷ [])
    object ← first_object output
    returned (object, record w { db = db })

  unfoldable pub get_objects_by_path :
      Bytes → Bytes → World S.Db → Result (List FsObject × World S.Db)
  get_objects_by_path user_id object_path w = do
    (output, db) ← run_param_query S w.db get_objects_by_path_query (user_id ∷ object_path ∷ [])
    objects ← read_objects output
    returned (objects, record w { db = db })

  -- The first check of `create_object`: the path is the root or an existing directory.
  unfoldable pub has_parent : Bytes → Bytes → World S.Db → Result (Bool × World S.Db)
  has_parent user_id object_path w =
      if same object_path (slash ∷ []) then returned (true, w) else do
        (object, w') ← get_object user_id (get_basename object_path) (get_parent_path object_path) w
        returned (not (is_empty object.id) && object.is_directory, w')

  -- The INSERT of `create_object`.
  unfoldable pub insert_object :
      (ℕ → ℕ) → Bytes → Bytes → Bytes → ℕ → Bool → World S.Db → Result (Bytes × World S.Db)
  insert_object rand user_id object_name object_path object_size is_directory w = do
    let object_id = generate_uuid_string rand w.draws 64
    (output, db) ← run_param_query S w.db create_object_query (
        object_id
        ∷ object_name
        ∷ object_path
        ∷ to_string object_size
        ∷ flag is_directory
        ∷ user_id
        ∷ [])
    returned (object_id, record w { db = db; draws = w.draws + 64 })

  -- An empty identifier says that nothing was created.
  unfoldable pub create_object :
      (ℕ → ℕ) → Bytes → Bytes → Bytes → ℕ → Bool → World S.Db → Result (Bytes × World S.Db)
  create_object rand user_id object_name object_path object_size is_directory w = do
    (allowed, w₁) ← has_parent user_id object_path w
    if allowed
        then (do
          (object, w₂) ← get_object user_id object_name object_path w₁
          if is_empty object.id
              then insert_object rand user_id object_name object_path object_size is_directory w₂
              else returned ([], w₂))
        else returned ([], w₁)

  unfoldable pub update_object_size :
      Bytes → Bytes → Bytes → ℕ → World S.Db → Result (Bytes × World S.Db)
  update_object_size user_id object_name object_path object_size w = do
    (object, w₁) ← get_object user_id object_name object_path w
    if is_empty object.id then returned ([], w₁) else do
      (output, db) ←
          run_param_query S w₁.db update_object_size_query (to_string object_size ∷ object.id ∷ [])
      returned (object.id, record w₁ { db = db })

  -- The objects inside a directory, with their files.
  unfoldable pub remove_inside : Bytes → Bytes → Bytes → World S.Db → Result (World S.Db)
  remove_inside user_id object_name object_path w = do
    let pattern = path_prefix object_path object_name
    (ids, db₁) ←
        run_param_query S w.db get_object_ids_with_path_prefix_query (user_id ∷ pattern ∷ [])
    (output, db₂) ←
        run_param_query S db₁ delete_object_ids_with_path_prefix_query (user_id ∷ pattern ∷ [])
    returned (record w { db = db₂; files = remove_files ids w.files })

  -- The object itself, with its file.
  unfoldable pub remove_row : Bytes → World S.Db → Result (World S.Db)
  remove_row id w = do
    (output, db) ← run_param_query S w.db delete_object_query (id ∷ [])
    returned (record w { db = db; files = (remove_file (data_file id) w.files).1 })

  unfoldable pub remove_fs_object : Bytes → Bytes → Bytes → World S.Db → Result (Bool × World S.Db)
  remove_fs_object user_id object_name object_path w = do
    (object, w₁) ← get_object user_id object_name object_path w
    if is_empty object.id then returned (false, w₁) else do
      w₂ ←
          (if object.is_directory
            then remove_inside user_id object_name object_path w₁
            else returned w₁)
      w₃ ← remove_row object.id w₂
      returned (true, w₃)
