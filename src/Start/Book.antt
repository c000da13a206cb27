-- ===== src/Start/Book.antt =====
-- A SQLite in memory that keeps the table of users: it shows that what the start relies on can be had,
-- and runs the tests.
use Prim.Native.String.{String}
use text.Mathlib.Text.{◌==◌ as str_eq}
use asio_ftp.Base.{
  ◌≡◌, refl, ap, subst, Bool, true, false, not, Option, none, some, List, [], ◌∷◌, ◌++◌, map, Bytes,
  codes, same, same→≡, same_refl, if◌then◌else◌, Bool-cases, Option-cases, inl, inr, arith,
}
use asio_ftp.Database.Sqlite.{Sqlite}
use asio_ftp.Database.Schema.{UserRow, create_user_query}
use asio_ftp.Database.Connection.{Calls, Column}
use asio_ftp.Database.Checks.{
  get_all_user_credentials_query, get_user_table_name_query, user_table_creation_query,
  check_user_table_structure_query,
}
use asio_ftp.Start.Accounts.{
  UsersTable, Accounts, creation, rows_of, password_named, has_id, insert_account, HasDistinctNames,
  named_columns, name_rows,
}

pub record Book : Type 0 where
  pub table : Option UsersTable
  pub distinct : HasDistinctNames (rows_of table)

append_named :
    (n : Bytes) (us : List UserRow) (u : UserRow)
    → password_named n us ≡ none
    → same n u.name ≡ false
    → password_named n (us ++ u ∷ []) ≡ none
unfolding password_named
append_named n [] u h e = rw e refl
append_named n (v ∷ us) u h e = ground (arith, h, e, append_named n us u)

append_distinct :
    (us : List UserRow) (u : UserRow)
    → HasDistinctNames us
    → password_named u.name us ≡ none
    → HasDistinctNames (us ++ u ∷ [])
unfolding password_named
append_distinct [] u d new = (refl, tt)
append_distinct (v ∷ us) u d new = elim (Bool-cases (same v.name u.name)) [
  | inl is ↦
      absurd
        (ground (arith, new, ap (λ x. same x v.name) (same→≡ v.name u.name is), same_refl v.name))
  | inr is_not ↦
      (append_named v.name us u d.0 is_not, append_distinct us u d.1 (ground (arith, new)))
]

pub insert_distinct :
    (u : UserRow) (us : List UserRow) → HasDistinctNames us → HasDistinctNames (insert_account u us)
insert_distinct u us d = elim (Option-cases (password_named u.name us)) [
  | inl new ↦ rw new (keeps (has_id u.user_id us) new)
  | inr (p, taken) ↦ rw taken d
]
  where
    keeps :
        (b : Bool)
        → password_named u.name us ≡ none
        → HasDistinctNames (if not b then us ++ u ∷ [] else us)
    keeps true new = d
    keeps false new = append_distinct us u d new

abbrev insert_into : UserRow → (o : Option UsersTable) → HasDistinctNames (rows_of o) → Book
insert_into u none d = record { table = none; distinct = tt }
insert_into u (some t) d = record {
  table = some (record t { rows = insert_account u t.rows });
  distinct = insert_distinct u t.rows d;
}

abbrev insert_row : UserRow → Book → Book
insert_row u b = insert_into u b.table b.distinct

abbrev on_insert : List Bytes → Book → Book
on_insert (id ∷ n ∷ p ∷ []) b = insert_row (record { user_id = id; name = n; password = p }) b
on_insert params b = b

abbrev pub book_sqlite : Sqlite
book_sqlite = record {
  Db = Book;
  prepare = λ b sql. 0;
  bind_text = λ b sql i param. 0;
  rows = λ b sql params. [];
  last_step = λ b sql params. 101;
  after = λ b sql params. if str_eq sql create_user_query then on_insert params b else b;
}

abbrev empty_book : Book
empty_book = record { table = none; distinct = tt }

abbrev structure_rows : Option UsersTable → List (List Column)
structure_rows none = []
structure_rows (some t) = (record { text = t.sql; name = codes "sql" } ∷ []) ∷ []

abbrev exec_rows : Book → String → List (List Column)
exec_rows b sql =
    if str_eq sql get_user_table_name_query
    then name_rows b.table
    else if str_eq sql check_user_table_structure_query
    then structure_rows b.table
    else if str_eq sql get_all_user_credentials_query
    then map named_columns (rows_of b.table)
    else []

abbrev make_table : (t : Option UsersTable) → HasDistinctNames (rows_of t) → Book
make_table none d = record { table = some (record { sql = creation; rows = [] }); distinct = tt }
make_table (some t) d = record { table = some t; distinct = d }

abbrev pub book_calls : Calls book_sqlite
book_calls = record {
  open_code = λ path. 0;
  empty_db = empty_book;
  exec_code = λ b sql. 0;
  exec_rows = exec_rows;
  exec_after =
      λ b sql. if str_eq sql user_table_creation_query then make_table b.table b.distinct else b;
}

abbrev pub table_of : Book → Option UsersTable
table_of b = b.table

pub book_Accounts : Accounts book_sqlite book_calls table_of
book_Accounts = record {
  empty = refl;
  distinct = λ b t e. subst (λ o. HasDistinctNames (rows_of o)) e b.distinct;
  optimized = λ b. (refl, refl);
  looked_up = λ b. (refl, refl);
  looked_up_rows = λ b. refl;
  created = λ b e. (refl, made b.table b.distinct e);
  compared = λ b. (refl, refl);
  compared_rows = λ b t e. ap structure_rows e;
  listed = λ b. (refl, refl);
  listed_rows = λ b t e. ap (λ o. map named_columns (rows_of o)) e;
  inserted_runs = λ b id n p. record {
    prepared = refl;
    bound = (refl, (refl, (refl, tt)));
    not_misused = refl;
  };
  inserted = λ b t id n p e.
      added (record { user_id = id; name = n; password = p }) b.table b.distinct t e;
}
  where
    made :
        (o : Option UsersTable) (d : HasDistinctNames (rows_of o))
        → o ≡ none
        → table_of (make_table o d) ≡ some (record { sql = creation; rows = [] })
    made none d e = refl
    made (some t) d e = cc

    added :
        (u : UserRow) (o : Option UsersTable) (d : HasDistinctNames (rows_of o)) (t : UsersTable)
        → o ≡ some t
        → table_of (insert_row u (record { table = o; distinct = d }))
          ≡ some (record t { rows = insert_account u t.rows })
    added u none d t e = cc
    added u (some s) d t e =
        ap
          (λ (o : Option UsersTable). elim o [
            | none ↦ none
            | some x ↦ some (record x { rows = insert_account u x.rows })
          ])
          e
