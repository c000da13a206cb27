-- ===== src/Database/Objects/Tree.antt =====
-- A user's objects form a tree: whatever stands under a path other than the root stands in a
-- directory of the user. Creating and removing keep it so.
use asio_ftp.Base.{
  ◌≡◌, refl, Bool, true, false, not, ◌&&◌, none, some, [], ◌∷◌, ◌++◌, Bytes, same, ap, sym, subst,
  ◌∙◌, append-nil, ◌⊎◌, Lacks, if◌then◌else◌, arith, Option-cases, Bool-cases, inl, inr, same_iff,
  same→≡,
}
use mathlib.Core.Bool.{false≢true}
use asio_ftp.Helpers.Paths.{slash, child_path, get_basename, get_parent_path}
use asio_ftp.Helpers.Paths.Inverse.{IsAbsolute, parent_basename-child}
use asio_ftp.Database.Sqlite.{Sqlite}
use asio_ftp.Database.Schema.{ObjectRow, Tables, IsLawful, Table, keep_rows, put_row, percent}
use asio_ftp.Database.Objects.Create.{is_owned_directory, is_directory_path}
use asio_ftp.Database.Objects.Remove.{outside, without}

-- The path is the root, or that of a directory of the user in the table.
pub record Inside (t : Table) (u p : Bytes) : Type 0 where
  pub d : ObjectRow
  pub there : t d.name d.path ≡ some d
  pub mine : same d.user_id u ≡ true
  pub directory : d.is_directory ≡ true
  pub made_of : p ≡ child_path d.path d.name

abbrev pub Rooted : Table → Bytes → Bytes → Type 0
Rooted t u p = (p ≡ slash ∷ []) ⊎ Inside t u p

abbrev pub IsTree : Table → Bytes → Type 0
IsTree t u = (n p : Bytes) (r : ObjectRow) → t n p ≡ some r → same r.user_id u ≡ true → Rooted t u p

-- A path that is put together from an absolute path and a name with no slash.
pub record IsEntryPath (p : Bytes) : Type 0 where
  pub parent : Bytes
  pub name : Bytes
  pub absolute : IsAbsolute parent
  pub plain : Lacks slash name
  pub made_of : p ≡ child_path parent name

-- The directory that a path names is still there.
still :
    {t t' : Table} {u p : Bytes} (i : Inside t u p)
    → t' i.d.name i.d.path ≡ some i.d
    → Inside t' u p
still i e = record {
  d = i.d;
  there = e;
  mine = i.mine;
  directory = i.directory;
  made_of = i.made_of;
}

Rooted-put_row :
    (t : Table) (u p : Bytes) (r : ObjectRow)
    → t r.name r.path ≡ none
    → Rooted t u p
    → Rooted (put_row t r) u p
Rooted-put_row t u p r free (inl root) = inl root
Rooted-put_row t u p r free (inr i) = inr (
    still {t' = put_row t r} i
      (ground (arith, same_iff i.d.name r.name, same_iff i.d.path r.path, i.there, free)))

keep_rows→ :
    (f : ObjectRow → Bool) (t : Table) (n p : Bytes) (x : ObjectRow)
    → keep_rows f t n p ≡ some x
    → (t n p ≡ some x) × (f x ≡ true)
keep_rows→ f t n p x h = ground arith

→keep_rows :
    (f : ObjectRow → Bool) (t : Table) (n p : Bytes) (x : ObjectRow)
    → t n p ≡ some x
    → f x ≡ true
    → keep_rows f t n p ≡ some x
→keep_rows f t n p x h k = ground arith

Rooted-keep_rows :
    (f : ObjectRow → Bool) (t : Table) (u p : Bytes)
    → ((i : Inside t u p) → f i.d ≡ true)
    → Rooted t u p
    → Rooted (keep_rows f t) u p
Rooted-keep_rows f t u p kept (inl root) = inl root
Rooted-keep_rows f t u p kept (inr i) =
    inr (still {t' = keep_rows f t} i (→keep_rows f t i.d.name i.d.path i.d i.there (kept i)))

child_path_longer : (d n : Bytes) → (s : Bytes) × (child_path d n ≡ d ++ s)
unfolding child_path
child_path_longer d n = (if same d (slash ∷ []) then n else slash ∷ n, ground arith)

module _ (S : Sqlite) (T : Tables S) (L : IsLawful S T) where
  open T use {object_at, like}

  owned_directory-Inside :
      (u n p : Bytes) (db : S.Db)
      → is_owned_directory u (object_at db n p) ≡ true
      → Inside (object_at db) u (child_path p n)
  owned_directory-Inside u n p db h = elim (Option-cases (object_at db n p)) [
    | inl e ↦ absurd (false≢true (rw e at h))
    | inr (d, e) ↦
        let (same_name, same_path) = L.keyed db n p d e in
        record {
          d = d;
          there = ground (arith, e, same_name, same_path);
          mine = ground (arith, e);
          directory = ground (arith, e);
          made_of = rw (same_name, same_path) refl;
        }
  ]

  Rooted-is_directory_path :
      (u p : Bytes) (db : S.Db)
      → (p ≡ slash ∷ []) ⊎ IsEntryPath p
      → is_directory_path S T u p db ≡ true
      → Rooted (object_at db) u p
  Rooted-is_directory_path u p db (inl root) h = inl root
  Rooted-is_directory_path u p db (inr e) h = elim (Bool-cases (same p (slash ∷ []))) [
    | inl root ↦ inl (same→≡ p (slash ∷ []) root)
    | inr other ↦
        let (up, last) = parent_basename-child e.parent e.name e.absolute e.plain in
        let found : is_owned_directory u (object_at db (get_basename p) (get_parent_path p))
            ≡ true =
          rw other at h in
        let named : get_basename p ≡ e.name = ap get_basename e.made_of ∙ last in
        let under : get_parent_path p ≡ e.parent = ap get_parent_path e.made_of ∙ up in
        inr (
          subst (Inside (object_at db) u) (sym e.made_of)
            (owned_directory-Inside u e.name e.parent db (rw (named, under) at found)))
  ]

  -- A new object in a directory.
  pub put_row-IsTree :
      (u : Bytes) (db : S.Db) (r : ObjectRow)
      → object_at db r.name r.path ≡ none
      → (r.path ≡ slash ∷ []) ⊎ IsEntryPath r.path
      → is_directory_path S T u r.path db ≡ true
      → IsTree (object_at db) u
      → IsTree (put_row (object_at db) r) u
  put_row-IsTree u db r free path parent tree n p x there mine =
      elim (Bool-cases (same n r.name && same p r.path)) [
        | inl new ↦
            subst (Rooted (put_row (object_at db) r) u) (sym (ground (arith, same_iff p r.path))) (
              Rooted-put_row (object_at db) u r.path r free
                (Rooted-is_directory_path u r.path db path parent))
        | inr old ↦ Rooted-put_row (object_at db) u p r free (tree n p x (ground arith) mine)
      ]

  not_removed :
      (n p : Bytes) (db : S.Db) (r d : ObjectRow)
      → object_at db n p ≡ some r
      → object_at db d.name d.path ≡ some d
      → (d ≡ r → ⊥)
      → not (same d.object_id r.object_id) ≡ true
  not_removed n p db r d found there differs = elim (Bool-cases (same d.object_id r.object_id)) [
    | inl e ↦
        let (k, l) = L.primary_key db d.name d.path n p d r there found (same→≡ _ _ e) in
        absurd (differs (cc (there, found, k, l)))
    | inr e ↦ rw e refl
  ]

  -- The directory that is removed is not the parent of what stays.
  parent-differs :
      (n p p' : Bytes) (db : S.Db) (r d : ObjectRow)
      → object_at db n p ≡ some r
      → p' ≡ child_path d.path d.name
      → like p' (child_path p n ++ percent ∷ []) ≡ false
      → d ≡ r
      → ⊥
  parent-differs n p p' db r d found made_of unlike e =
      let (k, l) = L.keyed db n p r found in
      let home : p' ≡ child_path p n ++ [] = cc (made_of, e, k, l, append-nil (child_path p n)) in
      false≢true (
        sym unlike
        ∙ (ap (λ q. like q (child_path p n ++ percent ∷ [])) home
            ∙ L.like_prefix (child_path p n) []))

  outside-unlike :
      (u n p : Bytes) (db : S.Db) (n' p' : Bytes) (x : ObjectRow)
      → object_at db n' p' ≡ some x
      → same x.user_id u ≡ true
      → outside S T u n p x ≡ true
      → like p' (child_path p n ++ percent ∷ []) ≡ false
  outside-unlike u n p db n' p' x there mine out =
      ap (λ q. like q (child_path p n ++ percent ∷ [])) (sym (L.keyed db n' p' x there).1)
      ∙ ground arith

  -- The parent of what stays stays.
  parent-outside :
      (u n p p' : Bytes) (db : S.Db) (i : Inside (object_at db) u p')
      → like p' (child_path p n ++ percent ∷ []) ≡ false
      → outside S T u n p i.d ≡ true
  parent-outside u n p p' db i unlike =
      let pattern = child_path p n ++ percent ∷ [] in
      elim (Bool-cases (like i.d.path pattern)) [
        | inl matched ↦
            let (s, e) = child_path_longer i.d.path i.d.name in
            absurd (
              false≢true (
                sym unlike
                ∙ (ap (λ q. like q pattern) (i.made_of ∙ e)
                    ∙ L.like_longer (child_path p n) i.d.path s matched)))
        | inr not_matched ↦ rw not_matched (ground arith)
      ]

  -- Removing an object, with everything inside.
  pub without-IsTree :
      (u n p : Bytes) (db : S.Db) (r : ObjectRow)
      → object_at db n p ≡ some r
      → IsTree (object_at db) u
      → IsTree (without S T u n p r (object_at db)) u
  without-IsTree u n p db r found tree n' p' x there mine = elim (Bool-cases r.is_directory) [
    | inl directory ↦
        let (inner, other) =
          keep_rows→ not_it (keep_rows (outside S T u n p) (object_at db)) n' p' x
            (rw directory at there) in
        let (there', out) = keep_rows→ (outside S T u n p) (object_at db) n' p' x inner in
        let unlike = outside-unlike u n p db n' p' x there' mine out in
        rw directory (
          Rooted-keep_rows not_it (keep_rows (outside S T u n p) (object_at db)) u p'
            (λ i.
              not_removed n p db r i.d found
                (keep_rows→ (outside S T u n p) (object_at db) i.d.name i.d.path i.d i.there).0
                (parent-differs n p p' db r i.d found i.made_of unlike))
            (Rooted-keep_rows (outside S T u n p) (object_at db) u p'
              (λ i. parent-outside u n p p' db i unlike) (tree n' p' x there' mine)))
    | inr file ↦
        let (there', other) = keep_rows→ not_it (object_at db) n' p' x (rw file at there) in
        rw file (
          Rooted-keep_rows not_it (object_at db) u p'
            (λ i.
              not_removed n p db r i.d found i.there
                (λ e. false≢true (sym file ∙ (ap (λ y. y.is_directory) (sym e) ∙ i.directory))))
            (tree n' p' x there' mine))
  ]
    where
      not_it : ObjectRow → Bool
      not_it y = not (same y.object_id r.object_id)
