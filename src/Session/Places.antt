-- ===== src/Session/Places.antt =====
-- Which object a path names, for each of the commands that take one.
use asio_ftp.Base.{
  ◌≡◌, refl, ◌≢◌, ◌∙◌, sym, ap, true, false, List, [], ◌∷◌, ◌++◌, append_assoc, Bytes, is_empty,
  same, length, Lacks, arith, ◌==◌,
}
use asio_ftp.Helpers.Strings.{string_starts_with}
use asio_ftp.Helpers.Strings.Parts.{split_one, split_first}
use asio_ftp.Helpers.Paths.{slash, is_slash_at, get_basename, get_parent_path, child_path}
use asio_ftp.Helpers.Paths.Inverse.{get_basename-append, IsAbsolute, parent_basename-child}
use asio_ftp.Session.Navigation.{place, is_one_name, make_place, remove_place, retrieve_place}
use asio_ftp.Session.Insecure.{store_path}

-- A name that an argument can be on its own.
abbrev pub IsName : Bytes → Type 0
IsName n = Lacks slash n × (is_empty n ≡ false)

name-is_one_name : (n : Bytes) → IsName n → is_one_name n ≡ true
name-is_one_name n h = rw (split_one slash n h.0 h.1) refl

pub name-is_slash_at : (n : Bytes) → Lacks slash n → is_slash_at n 0 ≡ false
unfolding is_slash_at
name-is_slash_at [] h = refl
name-is_slash_at (c ∷ n) h = ground (arith, h.0)

store_path-child : (wd n : Bytes) → Lacks slash n → store_path wd n ≡ child_path wd n
unfolding store_path child_path
store_path-child wd n h = rw (name-is_slash_at n h) refl

-- With an absolute working directory, a name that is not empty and has no slash names an object of
-- the working directory, for MKD and DELE, RMD, RETR and STOR alike.
pub name_place :
    (wd n : Bytes)
    → IsAbsolute wd
    → IsName n
    → (make_place wd n ≡ place wd n)
      × (remove_place wd n ≡ place wd n)
      × (retrieve_place wd n ≡ place wd n)
      × (get_parent_path (store_path wd n) ≡ wd)
      × (get_basename (store_path wd n) ≡ n)
unfolding make_place remove_place retrieve_place
name_place wd n a h = (
  rw (name-is_one_name n h) refl,
  rw (name-is_one_name n h) refl,
  rw (name-is_one_name n h) refl,
  ap get_parent_path (store_path-child wd n h.0) ∙ (parent_basename-child wd n a h.0).0,
  ap get_basename (store_path-child wd n h.0) ∙ (parent_basename-child wd n a h.0).1,
)

-- A text with a slash behind its first part is not one name.
path-is_one_name : (p s : Bytes) → Lacks slash p → is_one_name (p ++ slash ∷ s) ≡ false
path-is_one_name p s h =
    let (parts, split, filled, joined) = split_first slash p s h in
    rw split (two_parts p parts filled)
  where
    two_parts : (q : Bytes) (qs : List Bytes) → qs ≢ [] → (length (q ∷ qs) == 1) ≡ false
    two_parts q [] e = absurd (e refl)
    two_parts q (r ∷ rs) e = ground arith

absolute_path-is_one_name : (path : Bytes) → IsAbsolute path → is_one_name path ≡ false
unfolding is_slash_at
absolute_path-is_one_name [] a = absurd (cc a)
absolute_path-is_one_name (c ∷ s) a =
    let here : c ≡ slash = ground arith in rw here (path-is_one_name [] s tt)

child_path-IsAbsolute : (d n : Bytes) → IsAbsolute d → IsAbsolute (child_path d n)
unfolding child_path is_slash_at
child_path-IsAbsolute [] n a = absurd (cc a)
child_path-IsAbsolute (c ∷ d) n a = ground (arith, a)

doubled-IsAbsolute : (d : Bytes) → IsAbsolute (slash ∷ d)
unfolding is_slash_at
doubled-IsAbsolute d = refl

doubled-child :
    (d n : Bytes)
    → IsAbsolute d
    → same d (slash ∷ []) ≡ false
    → child_path (slash ∷ d) n ≡ slash ∷ child_path d n
unfolding child_path same is_slash_at
doubled-child [] n a below = absurd (cc a)
doubled-child (c ∷ d) n a below = ground (arith, below)

-- The path of an object, with no slash in its name, in a directory whose path is absolute and not
-- the root: RMD looks for the object in the directory, but MKD and DELE look for it, or make it,
-- under the path of the directory with one slash more in front.
pub absolute_place :
    (wd d n : Bytes)
    → IsAbsolute d
    → same d (slash ∷ []) ≡ false
    → Lacks slash n
    → (remove_place wd (child_path d n) ≡ place d n)
      × (make_place wd (child_path d n) ≡ place (slash ∷ d) n)
unfolding remove_place make_place
absolute_place wd d n a below plain =
    let entry = parent_basename-child d n a plain in
    let doubled = parent_basename-child (slash ∷ d) n (doubled-IsAbsolute d) plain in
    let longer : child_path (slash ∷ d) n ≡ slash ∷ child_path d n = doubled-child d n a below in
    let path = child_path-IsAbsolute d n a in
    (
      rw (absolute_path-is_one_name (child_path d n) path, path, entry.0, entry.1) refl,
      rw
          (
            absolute_path-is_one_name (child_path d n) path,
            sym (ap get_parent_path longer) ∙ doubled.0,
            entry.1,
          )
          refl,
    )

append-IsAbsolute : (p q : Bytes) → IsAbsolute p → IsAbsolute (p ++ q)
unfolding is_slash_at
append-IsAbsolute [] q a = absurd (cc a)
append-IsAbsolute (c ∷ p) q a = a

append-other :
    (p q : Bytes) → IsAbsolute p → is_empty q ≡ false → same (p ++ q) (slash ∷ []) ≡ false
unfolding is_slash_at same
append-other [] q a h = absurd (cc a)
append-other (c ∷ []) [] a h = absurd (cc h)
append-other (c ∷ []) (b ∷ q) a h = ground arith
append-other (c ∷ b ∷ p) q a h = ground arith

other_child : (d n : Bytes) → same d (slash ∷ []) ≡ false → child_path d n ≡ d ++ slash ∷ n
unfolding child_path
other_child d n h = rw h refl

starts_elsewhere :
    (d n : Bytes)
    → Lacks slash d
    → is_empty d ≡ false
    → string_starts_with (d ++ slash ∷ n) (slash ∷ []) ≡ false
unfolding string_starts_with same
starts_elsewhere [] n h filled = absurd (cc filled)
starts_elsewhere (c ∷ d) n h filled = ground (arith, h.0)

-- RETR of a name with no slash that is not empty, a slash, and a second name with no slash, in an
-- absolute working directory: the second is looked for in the directory whose path is the working
-- directory and the first name with no slash between them.
pub relative_place :
    (wd d n : Bytes)
    → IsAbsolute wd
    → Lacks slash d
    → is_empty d ≡ false
    → Lacks slash n
    → retrieve_place wd (d ++ slash ∷ n) ≡ place (wd ++ d) n
unfolding retrieve_place
relative_place wd d n a plain filled name =
    let parent : get_parent_path (wd ++ (d ++ slash ∷ n)) ≡ wd ++ d =
      ap get_parent_path (
        sym (append_assoc wd d (slash ∷ n))
        ∙ sym (other_child (wd ++ d) n (append-other wd d a filled)))
      ∙ (parent_basename-child (wd ++ d) n (append-IsAbsolute wd d a) name).0 in
    rw
      (
        path-is_one_name d n plain,
        starts_elsewhere d n plain filled,
        parent,
        get_basename-append d n name,
      )
      refl
