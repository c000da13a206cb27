-- ===== src/Database/Memory/Rows.antt =====
-- A table as a list of rows with distinct identifiers and distinct keys, seen through its keys.
use asio_ftp.Base.{
  subst, ◌≡◌, refl, Bool, true, false, ◌&&◌, ◌||◌, Option, none, some, List, [], ◌∷◌, map, Bytes,
  same, if◌then◌else◌, arith, All, same_iff, Bool-cases, inl, inr,
}
use asio_ftp.Database.Schema.{ObjectRow, keep_rows, change_rows}

abbrev pub is_at : Bytes → Bytes → ObjectRow → Bool
is_at n p r = same n r.name && same p r.path

abbrev pub row_at : List ObjectRow → Bytes → Bytes → Option ObjectRow
row_at [] n p = none
row_at (r ∷ rows) n p = if is_at n p r then some r else row_at rows n p

-- No constraint of the table is broken by the two rows together.
abbrev pub Differ : ObjectRow → ObjectRow → Type 0
Differ r x = (same x.object_id r.object_id ≡ false) × (is_at r.name r.path x ≡ false)

abbrev pub Unique : List ObjectRow → Type 0
Unique [] = Unit {0}
Unique (r ∷ rows) = All (Differ r) rows × Unique rows

-- Whether a row breaks a constraint beside the rows that are there.
abbrev pub conflicts : ObjectRow → List ObjectRow → Bool
conflicts r [] = false
conflicts r (x ∷ rows) = (same x.object_id r.object_id || is_at r.name r.path x) || conflicts r rows

abbrev pub filter_rows : (ObjectRow → Bool) → List ObjectRow → List ObjectRow
filter_rows f [] = []
filter_rows f (r ∷ rows) = let rest = filter_rows f rows in if f r then r ∷ rest else rest

pub Differ-of_conflicts :
    (r : ObjectRow) (rows : List ObjectRow) → conflicts r rows ≡ false → All (Differ r) rows
Differ-of_conflicts r [] h = tt
Differ-of_conflicts r (x ∷ rows) h =
    ((ground arith, ground arith), Differ-of_conflicts r rows (ground arith))

All-filter_rows :
    (P : ObjectRow → Type 0) (f : ObjectRow → Bool) (rows : List ObjectRow)
    → All P rows
    → All P (filter_rows f rows)
All-filter_rows P f [] h = tt
All-filter_rows P f (r ∷ rows) h = elim (Bool-cases (f r)) [
  | inl kept ↦ rw kept (h.0, All-filter_rows P f rows h.1)
  | inr dropped ↦ rw dropped (All-filter_rows P f rows h.1)
]

pub Unique-filter_rows :
    (f : ObjectRow → Bool) (rows : List ObjectRow) → Unique rows → Unique (filter_rows f rows)
Unique-filter_rows f [] h = tt
Unique-filter_rows f (r ∷ rows) h = elim (Bool-cases (f r)) [
  | inl kept ↦ rw kept (All-filter_rows (Differ r) f rows h.0, Unique-filter_rows f rows h.1)
  | inr dropped ↦ rw dropped (Unique-filter_rows f rows h.1)
]

-- What holds of every row holds of the one that is found.
pub row_at-All :
    (P : ObjectRow → Type 0) (rows : List ObjectRow) (n p : Bytes) (r : ObjectRow)
    → All P rows
    → row_at rows n p ≡ some r
    → P r
row_at-All P [] n p r h e = absurd (cc e)
row_at-All P (x ∷ rows) n p r h e = elim (Bool-cases (is_at n p x)) [
  | inl hit ↦
      let given : (if is_at n p x then some x else row_at rows n p) ≡ some r = e in
      subst P (cc (rw hit at given)) h.0
  | inr miss ↦
      let given : (if is_at n p x then some x else row_at rows n p) ≡ some r = e in
      row_at-All P rows n p r h.1 (rw miss at given)
]

pub row_at-keyed :
    (rows : List ObjectRow) (n p : Bytes) (r : ObjectRow)
    → row_at rows n p ≡ some r
    → (r.name ≡ n) × (r.path ≡ p)
row_at-keyed [] n p r h = cc
row_at-keyed (x ∷ rows) n p r h =
    ground (arith, same_iff n x.name, same_iff p x.path, row_at-keyed rows n p r)

-- What differs from all rows has no row at its key.
pub row_at-Differ :
    (r : ObjectRow) (rows : List ObjectRow) (n p : Bytes)
    → All (Differ r) rows
    → is_at n p r ≡ true
    → row_at rows n p ≡ none
row_at-Differ r [] n p h e = refl
row_at-Differ r (x ∷ rows) n p h e =
    ground (arith, same_iff n r.name, same_iff p r.path, row_at-Differ r rows n p h.1 e)

pub row_at-filter_rows :
    (f : ObjectRow → Bool) (rows : List ObjectRow) (n p : Bytes)
    → Unique rows
    → row_at (filter_rows f rows) n p ≡ keep_rows f (row_at rows) n p
row_at-filter_rows f [] n p h = refl
row_at-filter_rows f (r ∷ rows) n p h = ground (
  arith,
  row_at-filter_rows f rows n p h.1,
  row_at-Differ r (filter_rows f rows) n p (All-filter_rows (Differ r) f rows h.0),
)

-- A change that keeps the identifier and the key.
pub record KeepsKey (f : ObjectRow → ObjectRow) : Type 0 where
  pub id : (r : ObjectRow) → (f r).object_id ≡ r.object_id
  pub name : (r : ObjectRow) → (f r).name ≡ r.name
  pub path : (r : ObjectRow) → (f r).path ≡ r.path

module _ (f : ObjectRow → ObjectRow) (k : KeepsKey f) where
  pub row_at-map :
      (rows : List ObjectRow) (n p : Bytes)
      → row_at (map f rows) n p ≡ change_rows f (row_at rows) n p
  row_at-map [] n p = refl
  row_at-map (r ∷ rows) n p = ground (arith, k.name r, k.path r, row_at-map rows n p)

  All-map :
      (r : ObjectRow) (rows : List ObjectRow)
      → All (Differ r) rows
      → All (Differ (f r)) (map f rows)
  All-map r [] h = tt
  All-map r (x ∷ rows) h = (
    (rw (k.id x, k.id r) h.0.0, rw (k.name x, k.path x, k.name r, k.path r) h.0.1),
    All-map r rows h.1,
  )

  pub Unique-map : (rows : List ObjectRow) → Unique rows → Unique (map f rows)
  Unique-map [] h = tt
  Unique-map (r ∷ rows) h = (All-map r rows h.0, Unique-map rows h.1)

-- A row that is found elsewhere has another identifier.
id-Differ :
    (x : ObjectRow) (rows : List ObjectRow) (n p : Bytes) (r : ObjectRow)
    → All (Differ x) rows
    → row_at rows n p ≡ some r
    → same r.object_id x.object_id ≡ false
id-Differ x [] n p r h e = cc
id-Differ x (y ∷ rows) n p r h e = ground (arith, id-Differ x rows n p r h.1)

pub row_at-primary_key :
    (rows : List ObjectRow) (n p n' p' : Bytes) (r r' : ObjectRow)
    → Unique rows
    → row_at rows n p ≡ some r
    → row_at rows n' p' ≡ some r'
    → r.object_id ≡ r'.object_id
    → (n ≡ n') × (p ≡ p')
row_at-primary_key [] n p n' p' r r' u e e' h = cc
row_at-primary_key (x ∷ rows) n p n' p' r r' u e e' h = ground (
  arith,
  same_iff n x.name,
  same_iff p x.path,
  same_iff n' x.name,
  same_iff p' x.path,
  same_iff r.object_id x.object_id,
  same_iff r'.object_id x.object_id,
  id-Differ x rows n p r u.0,
  id-Differ x rows n' p' r' u.0,
  row_at-primary_key rows n p n' p' r r' u.1,
)
