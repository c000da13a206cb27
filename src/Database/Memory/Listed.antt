-- ===== src/Database/Memory/Listed.antt =====
-- The SQLite in memory gives the rows of a user at a path.
use mathlib.Core.List.{Memᴰ}
use asio_ftp.Base.{
  ◌≡◌, refl, sym, ap, ◌∙◌, Bool, true, ◌&&◌, some, List, [], ◌∷◌, Bytes, same, same_refl, same_iff,
  arith, All, Bool-cases, inl, inr,
}
use asio_ftp.Database.Schema.{ObjectRow}
use asio_ftp.Database.Objects.ByPath.{Listings}
use asio_ftp.Database.Memory.Rows.{row_at, is_at, Unique, filter_rows, row_at-Differ, row_at-keyed}
use asio_ftp.Database.Memory.{memory_sqlite, memory_tables}

abbrev is_listed : Bytes → Bytes → ObjectRow → Bool
is_listed u p r = same r.user_id u && same r.path p

abbrev Found : List ObjectRow → Bytes → Bytes → ObjectRow → Type 0
Found rows u p r = (row_at rows r.name p ≡ some r) × (same r.user_id u ≡ true)

Found-cons :
    (r : ObjectRow) (rows : List ObjectRow) (u p : Bytes) (x : ObjectRow)
    → Unique (r ∷ rows)
    → Found rows u p x
    → Found (r ∷ rows) u p x
Found-cons r rows u p x unique (e, mine) = elim (Bool-cases (is_at x.name p r)) [
  | inl hit ↦ absurd (cc (e, row_at-Differ r rows x.name p unique.0 hit))
  | inr miss ↦ (rw miss e, mine)
]

All-Found-cons :
    (r : ObjectRow) (rows : List ObjectRow) (u p : Bytes) (xs : List ObjectRow)
    → Unique (r ∷ rows)
    → All (Found rows u p) xs
    → All (Found (r ∷ rows) u p) xs
All-Found-cons r rows u p [] unique h = tt
All-Found-cons r rows u p (x ∷ xs) unique h =
    (Found-cons r rows u p x unique h.0, All-Found-cons r rows u p xs unique h.1)

listed_here :
    (r : ObjectRow) (rows : List ObjectRow) (u p : Bytes)
    → is_listed u p r ≡ true
    → Found (r ∷ rows) u p r
listed_here r rows u p e = ground (arith, same_refl r.name, same_iff r.path p, same_refl p)

listed_sound :
    (rows : List ObjectRow) (u p : Bytes)
    → Unique rows
    → All (Found rows u p) (filter_rows (is_listed u p) rows)
listed_sound [] u p unique = tt
listed_sound (r ∷ rows) u p unique =
    let rest =
      All-Found-cons r rows u p (filter_rows (is_listed u p) rows) unique
        (listed_sound rows u p unique.1) in
    elim (Bool-cases (is_listed u p r)) [
      | inl kept ↦ rw kept (listed_here r rows u p kept, rest)
      | inr dropped ↦ rw dropped rest
    ]

Mem-filter_rows :
    (f : ObjectRow → Bool) (rows : List ObjectRow) (r : ObjectRow)
    → f r ≡ true
    → Memᴰ r rows
    → Memᴰ r (filter_rows f rows)
Mem-filter_rows f [] r kept m = elim m [ ]
Mem-filter_rows f (x ∷ rows) r kept (Memᴰ.head e) =
    let same_row : f x ≡ true = ap f (sym e) ∙ kept in rw same_row (Memᴰ.head e)
Mem-filter_rows f (x ∷ rows) r kept (Memᴰ.tail m) = elim (Bool-cases (f x)) [
  | inl k ↦ rw k (Memᴰ.tail (Mem-filter_rows f rows r kept m))
  | inr k ↦ rw k (Mem-filter_rows f rows r kept m)
]

row_at-Mem :
    (rows : List ObjectRow) (n p : Bytes) (r : ObjectRow) → row_at rows n p ≡ some r → Memᴰ r rows
row_at-Mem [] n p r h = absurd (cc h)
row_at-Mem (x ∷ rows) n p r h = elim (Bool-cases (is_at n p x)) [
  | inl hit ↦ Memᴰ.head (ground arith)
  | inr miss ↦ Memᴰ.tail (row_at-Mem rows n p r (ground arith))
]

pub memory_listings : Listings memory_sqlite memory_tables
memory_listings = record {
  rows_by_path = λ m u p. filter_rows (is_listed u p) m.rows;
  runs = λ m u p. record { prepared = refl; bound = (refl, (refl, tt)); not_misused = refl };
  rows = λ m u p. refl;
  after = λ m u p. refl;
  sound = λ m u p. listed_sound m.rows u p m.unique;
  complete = λ m u n p r e mine.
      Mem-filter_rows (is_listed u p) m.rows r
        (ground (arith, mine, (row_at-keyed m.rows n p r e).1, same_refl p))
        (row_at-Mem m.rows n p r e);
}
