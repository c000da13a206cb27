-- ===== src/Database/Memory/Lawful.antt =====
-- The SQLite in memory does what the sources rely on.
use asio_ftp.Base.{
  ◌≡◌, refl, Bool, true, false, not, ◌&&◌, Option, none, some, List, [], ◌∷◌, Bytes, codes, same,
  ap, Bool-cases, inl, inr, arith, ◌∙◌, ◌≢◌, same_iff, same_refl,
}
use Prim.Native.String.{String}
use mathlib.Core.Path.{fun_ext}
use asio_ftp.Helpers.Decimal.{to_string}
use asio_ftp.Database.Sqlite.{Runs, AllBound}
use asio_ftp.Database.Schema.{
  UserRow, ObjectRow, IsLawful, Table, put_row, flag, with_size, owned_columns,
}
use asio_ftp.Database.Memory.Rows.{
  row_at, Unique, conflicts, is_at, row_at-keyed, row_at-filter_rows, row_at-map,
  row_at-primary_key, row_at-Differ,
}
use asio_ftp.Database.Memory.Like.{like, like_prefix, like_longer}
use asio_ftp.Database.Memory.{
  Memory, memory_sqlite, memory_tables, insert_row, insert_free, clock, find_user,
  with_size-KeepsKey, row_of, password_view, select_user, owned_row,
}

taken-conflicts :
    (r x : ObjectRow) (rows : List ObjectRow)
    → row_at rows r.name r.path ≡ some x
    → conflicts r rows ≡ true
taken-conflicts r x [] h = cc
taken-conflicts r x (y ∷ rows) h = ground (
  arith,
  same_iff r.name y.name,
  same_iff r.path y.path,
  same_refl r.name,
  same_refl r.path,
  taken-conflicts r x rows,
)

-- No row has the identifier.
abbrev Fresh : List ObjectRow → Bytes → Type 0
Fresh rows id = (n p : Bytes) (x : ObjectRow) → row_at rows n p ≡ some x → x.object_id ≢ id

Fresh-tail :
    (y : ObjectRow) (rows : List ObjectRow) (id : Bytes)
    → Unique (y ∷ rows)
    → Fresh (y ∷ rows) id
    → Fresh rows id
Fresh-tail y rows id u fresh n p x e = elim (Bool-cases (is_at n p y)) [
  | inl hit ↦ absurd (cc (e, row_at-Differ y rows n p u.0 hit))
  | inr miss ↦ fresh n p x (rw miss e)
]

free-conflicts :
    (r : ObjectRow) (rows : List ObjectRow)
    → Unique rows
    → row_at rows r.name r.path ≡ none
    → Fresh rows r.object_id
    → conflicts r rows ≡ false
free-conflicts r [] u h fresh = refl
free-conflicts r (y ∷ rows) u h fresh = ground (
  arith,
  fresh y.name y.path y,
  same_iff y.object_id r.object_id,
  same_refl y.name,
  same_refl y.path,
  free-conflicts r rows u.1,
  Fresh-tail y rows r.object_id u fresh,
)

insert_free-true :
    (r : ObjectRow) (m : Memory) (b : Bool) (e : conflicts r m.rows ≡ b)
    → b ≡ true
    → (insert_free r m b e).rows ≡ m.rows
insert_free-true r m true e h = refl
insert_free-true r m false e h = cc

insert_free-false :
    (r : ObjectRow) (m : Memory) (b : Bool) (e : conflicts r m.rows ≡ b)
    → b ≡ false
    → (insert_free r m b e).rows ≡ r ∷ m.rows
insert_free-false r m true e h = cc
insert_free-false r m false e h = refl

insert_row-taken :
    (r x : ObjectRow) (m : Memory)
    → row_at m.rows r.name r.path ≡ some x
    → ◌≡◌ {A = Table} (row_at (insert_row r m).rows) (row_at m.rows)
insert_row-taken r x m h =
    ap row_at (insert_free-true r m (conflicts r m.rows) refl (taken-conflicts r x m.rows h))

insert_row-free :
    (r : ObjectRow) (m : Memory)
    → row_at m.rows r.name r.path ≡ none
    → Fresh m.rows r.object_id
    → ◌≡◌ {A = Table} (row_at (insert_row r m).rows) (put_row (row_at m.rows) r)
insert_row-free r m h fresh =
    ap row_at
      (insert_free-false r m (conflicts r m.rows) refl (free-conflicts r m.rows m.unique h fresh))

flag-same : (b : Bool) → same (flag b) (codes "1") ≡ b
unfolding same
flag-same true = refl
flag-same false = refl

owned_rows : (u : Bytes) (o : Option ObjectRow) → owned_row u o ≡ owned_columns u o
owned_rows u none = refl
owned_rows u (some r) = refl

user_rows :
    (o : Option UserRow)
    → select_user o (λ v. v.user_id) ≡ elim o [ none ↦ [] | some v ↦ (v.user_id ∷ []) ∷ [] ]
user_rows none = refl
user_rows (some v) = refl

password_rows :
    (o : Option UserRow)
    → select_user o (λ v. v.password)
      ≡ elim (password_view o) [ none ↦ [] | some w ↦ (w ∷ []) ∷ [] ]
password_rows none = refl
password_rows (some v) = refl

always :
    (m : Memory) (sql : String) (params : List Bytes)
    → AllBound memory_sqlite m sql 0 params
    → Runs memory_sqlite m sql params
always m sql params b = record { prepared = refl; bound = b; not_misused = refl }

flag_row :
    (id n p : Bytes) (size : Bytes) (directory : Bool) (u : Bytes)
    → row_of id n p size (flag directory) u ≡ (record {
      object_id = id;
      name = n;
      path = p;
      size = size;
      modified_time = clock;
      is_directory = directory;
      user_id = u;
    })
flag_row id n p size directory u = rw (flag-same directory) refl

pub memory_sqlite-IsLawful : IsLawful memory_sqlite memory_tables
memory_sqlite-IsLawful = record {
  keyed = λ m n p r e. row_at-keyed m.rows n p r e;
  primary_key = λ m n p n' p' r r' e e' h. row_at-primary_key m.rows n p n' p' r r' m.unique e e' h;
  runs_get_object = λ m u n p. always m _ _ (refl, (refl, (refl, tt)));
  rows_get_object = λ m u n p. owned_rows u (row_at m.rows n p);
  after_get_object = λ m u n p. refl;
  runs_create_object =
      λ m id n p size directory u. always m _ _ (refl, (refl, (refl, (refl, (refl, (refl, tt))))));
  create_taken = λ m id n p size directory u r e.
      insert_row-taken (row_of id n p (to_string size) (flag directory) u) r m e;
  create_free = λ m id n p size directory u e fresh.
      insert_row-free (row_of id n p (to_string size) (flag directory) u) m e fresh
      ∙ ap (put_row (row_at m.rows)) (flag_row id n p (to_string size) directory u);
  runs_update_size = λ m size id. always m _ _ (refl, (refl, tt));
  after_update_size = λ m size id. fun_ext (λ n. fun_ext (λ p.
      row_at-map (with_size id (to_string size) clock)
        (with_size-KeepsKey id (to_string size) clock) m.rows n p));
  runs_ids_with_prefix = λ m u pattern. always m _ _ (refl, (refl, tt));
  after_ids_with_prefix = λ m u pattern. refl;
  runs_delete_prefix = λ m u pattern. always m _ _ (refl, (refl, tt));
  after_delete_prefix = λ m u pattern. fun_ext (λ n. fun_ext (λ p.
      row_at-filter_rows (λ r. not (same r.user_id u && like r.path pattern)) m.rows n p m.unique));
  runs_delete_object = λ m id. always m _ _ (refl, tt);
  after_delete_object = λ m id.
      fun_ext (λ n.
        fun_ext (λ p. row_at-filter_rows (λ r. not (same r.object_id id)) m.rows n p m.unique));
  like_prefix = like_prefix;
  like_longer = like_longer;
  runs_get_id = λ m n. always m _ _ (refl, tt);
  rows_get_id = λ m n. user_rows (find_user (λ v. same v.name n) m.users);
  after_get_id = λ m n. refl;
  runs_get_password = λ m id. always m _ _ (refl, tt);
  rows_get_password = λ m id. password_rows (find_user (λ v. same v.user_id id) m.users);
  after_get_password = λ m id. refl;
}
