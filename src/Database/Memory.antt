-- ===== src/Database/Memory.antt =====
-- A small SQLite in memory that keeps the two tables: it shows that what the sources rely on can be
-- had, and runs the tests.
pub mod Rows
pub mod Like
pub mod Lawful
pub mod Listed
use Prim.Native.String.{String}
use text.Mathlib.Text.{◌==◌ as str_eq}
use asio_ftp.Base.{
  ℕ, ◌≡◌, refl, Bool, true, false, not, ◌&&◌, Option, none, some, List, [], ◌∷◌, map, Bytes, codes,
  same, if◌then◌else◌, Bool-cases, inl, inr,
}
use asio_ftp.Database.Sqlite.{Sqlite}
use asio_ftp.Database.Schema.{
  UserRow, ObjectRow, Tables, columns, with_size, get_id_by_name_query, get_password_by_id_query,
  get_object_query, get_objects_by_path_query, create_object_query, update_object_size_query,
  get_object_ids_with_path_prefix_query, delete_object_ids_with_path_prefix_query,
  delete_object_query,
}
use Rows.{
  row_at, Unique, conflicts, filter_rows, KeepsKey, Differ-of_conflicts, Unique-filter_rows,
  Unique-map,
}
use Like.{like}

pub record Memory : Type 0 where
  pub rows : List ObjectRow
  pub unique : Unique rows
  pub users : List UserRow

abbrev pub clock : Bytes
clock = codes "2025-08-28 05:12:43"

abbrev pub with_size-KeepsKey : (id size now : Bytes) → KeepsKey (with_size id size now)
with_size-KeepsKey id size now = record {
  id = λ r. split_id r;
  name = λ r. split_name r;
  path = λ r. split_path r;
}
  where
    split_id : (r : ObjectRow) → (with_size id size now r).object_id ≡ r.object_id
    split_id r = elim (Bool-cases (same r.object_id id)) [ inl e ↦ rw e | inr e ↦ rw e ]

    split_name : (r : ObjectRow) → (with_size id size now r).name ≡ r.name
    split_name r = elim (Bool-cases (same r.object_id id)) [ inl e ↦ rw e | inr e ↦ rw e ]

    split_path : (r : ObjectRow) → (with_size id size now r).path ≡ r.path
    split_path r = elim (Bool-cases (same r.object_id id)) [ inl e ↦ rw e | inr e ↦ rw e ]

abbrev pub keep : (ObjectRow → Bool) → Memory → Memory
keep f m = record m { rows = filter_rows f m.rows; unique = Unique-filter_rows f m.rows m.unique }

abbrev pub resize : Bytes → Bytes → Memory → Memory
resize id size m = record m {
  rows = map (with_size id size clock) m.rows;
  unique = Unique-map (with_size id size clock) (with_size-KeepsKey id size clock) m.rows m.unique;
}

abbrev insert_free : (r : ObjectRow) (m : Memory) (b : Bool) → conflicts r m.rows ≡ b → Memory
insert_free r m true e = m
insert_free r m false e = record m {
  rows = r ∷ m.rows;
  unique = (Differ-of_conflicts r m.rows e, m.unique);
}

abbrev pub insert_row : ObjectRow → Memory → Memory
insert_row r m = insert_free r m (conflicts r m.rows) refl

abbrev pub row_of : Bytes → Bytes → Bytes → Bytes → Bytes → Bytes → ObjectRow
row_of id n p size directory u = record {
  object_id = id;
  name = n;
  path = p;
  size = size;
  modified_time = clock;
  is_directory = same directory (codes "1");
  user_id = u;
}

-- The statements by their parameters.
abbrev pub on_insert : List Bytes → Memory → Memory
on_insert (id ∷ n ∷ p ∷ size ∷ directory ∷ u ∷ []) m = insert_row (row_of id n p size directory u) m
on_insert params m = m

abbrev pub on_update : List Bytes → Memory → Memory
on_update (size ∷ id ∷ []) m = resize id size m
on_update params m = m

abbrev pub on_delete_prefix : List Bytes → Memory → Memory
on_delete_prefix (u ∷ pattern ∷ []) m = keep (λ r. not (same r.user_id u && like r.path pattern)) m
on_delete_prefix params m = m

abbrev pub on_delete : List Bytes → Memory → Memory
on_delete (id ∷ []) m = keep (λ r. not (same r.object_id id)) m
on_delete params m = m

abbrev pub select : (ObjectRow → Bool) → (ObjectRow → List Bytes) → Memory → List (List Bytes)
select f view m = map view (filter_rows f m.rows)

abbrev pub find_user : (UserRow → Bool) → List UserRow → Option UserRow
find_user f [] = none
find_user f (v ∷ users) = if f v then some v else find_user f users

abbrev pub select_user : Option UserRow → (UserRow → Bytes) → List (List Bytes)
select_user none column = []
select_user (some v) column = (column v ∷ []) ∷ []

abbrev pub owned_row : Bytes → Option ObjectRow → List (List Bytes)
owned_row u none = []
owned_row u (some r) = if same r.user_id u then columns r ∷ [] else []

abbrev pub rows_object : List Bytes → Memory → List (List Bytes)
rows_object (u ∷ n ∷ p ∷ []) m = owned_row u (row_at m.rows n p)
rows_object params m = []

abbrev pub rows_by_path : List Bytes → Memory → List (List Bytes)
rows_by_path (u ∷ p ∷ []) m = select (λ r. same r.user_id u && same r.path p) columns m
rows_by_path params m = []

abbrev pub rows_ids : List Bytes → Memory → List (List Bytes)
rows_ids (u ∷ pattern ∷ []) m =
    select (λ r. same r.user_id u && like r.path pattern) (λ r. r.object_id ∷ []) m
rows_ids params m = []

abbrev pub rows_user_id : List Bytes → Memory → List (List Bytes)
rows_user_id (n ∷ []) m = select_user (find_user (λ v. same v.name n) m.users) (λ v. v.user_id)
rows_user_id params m = []

abbrev pub rows_password : List Bytes → Memory → List (List Bytes)
rows_password (id ∷ []) m =
    select_user (find_user (λ v. same v.user_id id) m.users) (λ v. v.password)
rows_password params m = []

abbrev pub memory_rows : Memory → String → List Bytes → List (List Bytes)
memory_rows m sql params =
    if str_eq sql get_object_query
    then rows_object params m
    else if str_eq sql get_objects_by_path_query
    then rows_by_path params m
    else if str_eq sql get_object_ids_with_path_prefix_query
    then rows_ids params m
    else if str_eq sql get_id_by_name_query
    then rows_user_id params m
    else if str_eq sql get_password_by_id_query
    then rows_password params m
    else []

abbrev pub memory_after : Memory → String → List Bytes → Memory
memory_after m sql params =
    if str_eq sql create_object_query
    then on_insert params m
    else if str_eq sql update_object_size_query
    then on_update params m
    else if str_eq sql delete_object_ids_with_path_prefix_query
    then on_delete_prefix params m
    else if str_eq sql delete_object_query
    then on_delete params m
    else m

abbrev pub memory_sqlite : Sqlite
memory_sqlite = record {
  Db = Memory;
  prepare = λ m sql. 0;
  bind_text = λ m sql i param. 0;
  rows = memory_rows;
  last_step = λ m sql params. 101;
  after = memory_after;
}

abbrev pub password_view : Option UserRow → Option Bytes
password_view none = none
password_view (some v) = some v.password

abbrev pub memory_tables : Tables memory_sqlite
memory_tables = record {
  object_at = λ m. row_at m.rows;
  user_named = λ m n. find_user (λ v. same v.name n) m.users;
  password_of = λ m id. password_view (find_user (λ v. same v.user_id id) m.users);
  now = λ m. clock;
  like = like;
}
