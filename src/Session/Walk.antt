-- ===== src/Session/Walk.antt =====
-- Moving through the directories: CWD into a directory, CDUP out of it, and MKD before.
use asio_ftp.Base.{
  ℕ, ◌≡◌, refl, subst, sym, ap, ◌∙◌, Bool, true, false, Option, none, some, [], ◌∷◌, append_assoc,
  Bytes, codes, same, same→≡, same_refl, Lacks, returned, arith, if◌then◌else◌, Bool-cases, inl,
  inr,
}
use asio_ftp.Helpers.Strings.Parts.{split_one}
use asio_ftp.Helpers.Paths.{slash, child_path}
use asio_ftp.Helpers.Paths.Inverse.{IsAbsolute, parent_basename-child}
use asio_ftp.Database.Sqlite.{Sqlite}
use asio_ftp.Database.Schema.{ObjectRow, Tables, IsLawful, IsFresh, new_row, Table}
use asio_ftp.Database.World.{World}
use asio_ftp.Database.Objects.Lookup.{
  IsId, is_owned, HasIds, owns, get_object_lem, is_empty-seen_by,
}
use asio_ftp.Database.Objects.Create.{
  is_directory_path, uuid, inserted, create_object_lem, uuid-IsId, put_row-HasIds,
}
use asio_ftp.Session.State.{Session, answer}
use asio_ftp.Session.Navigation.{
  Place, place, entered, changed, not_found, cwd_loop, cwd_walk, cwd_answer, cwd_start, cwd_path,
  run_cwd, run_cdup, run_mkd,
}
use asio_ftp.Session.Places.{IsName, name_place, name-is_slash_at}

entered-child :
    (wd n : Bytes) → entered (place (if same wd (slash ∷ []) then [] else wd) n) ≡ child_path wd n
unfolding child_path same
entered-child wd n = elim (Bool-cases (same wd (slash ∷ []))) [
  | inl root ↦ rw (root, same→≡ wd (slash ∷ []) root) refl
  | inr below ↦ rw (below, below) (append_assoc wd (slash ∷ []) n)
]

module _ (S : Sqlite) (T : Tables S) (L : IsLawful S T) (rand : ℕ → ℕ) where
  open T use {object_at}

  -- Where the walk from the working directory over one name ends.
  abbrev found_at : Bytes → Bytes → Bool → Option Place
  found_at wd n true = some (place (if same wd (slash ∷ []) then [] else wd) n)
  found_at wd n false = none

  cwd_walk_one :
      (u wd n : Bytes) (w : World S.Db)
      → HasIds S T w.db
      → cwd_walk S rand u wd (n ∷ []) w ≡ returned (found_at wd n (owns S T u n wd w.db), w)
  unfolding cwd_walk cwd_loop
  cwd_walk_one u wd n w ids =
      rw (get_object_lem S T L u n wd w, is_empty-seen_by S T u n wd w.db ids)
        (elim (Bool-cases (owns S T u n wd w.db)) [
          | inl own ↦ rw own refl
          | inr other ↦ rw other refl
        ])

  cwd_start_name :
      (n : Bytes) (s : Session S.Db)
      → IsName n
      → cwd_start S rand n s ≡ cwd_walk S rand s.userid s.working_directory (n ∷ []) s.world
  unfolding cwd_start
  cwd_start_name n s h = rw (name-is_slash_at n h.0, split_one slash n h.0 h.1) refl

  slash_differs : (n : Bytes) → Lacks slash n → same n (slash ∷ []) ≡ false
  unfolding same
  slash_differs [] h = refl
  slash_differs (c ∷ n) h = ground (arith, h.0)

  -- Under the laws of the tables, with well-made identifiers in the rows: CWD with a name other
  -- than `..` with no slash goes to the path of that entry of the working directory if the user
  -- has an object there, whether or not it is a directory, and otherwise says that there is none
  -- and stays.
  pub run_cwd-name :
      (n : Bytes) (s : Session S.Db)
      → IsName n
      → same n (codes "..") ≡ false
      → HasIds S T (s.world).db
      → run_cwd S rand n s
        ≡ returned (
            if owns S T s.userid n s.working_directory (s.world).db
            then answer changed (record s { working_directory = child_path s.working_directory n })
            else answer not_found s)
  unfolding run_cwd cwd_path cwd_answer
  run_cwd-name n s h dots ids =
      rw
        (
          h.1,
          dots,
          slash_differs n h.0,
          cwd_start_name n s h,
          cwd_walk_one s.userid s.working_directory n s.world ids,
        )
        (elim (Bool-cases (owns S T s.userid n s.working_directory (s.world).db)) [
          | inl own ↦ rw own (
              ap (λ p. returned (answer changed (record s { working_directory = p })))
                (entered-child s.working_directory n))
          | inr other ↦ rw other refl
        ])

  run_mkd-name :
      (n : Bytes) (s : Session S.Db)
      → IsName n
      → IsAbsolute s.working_directory
      → HasIds S T (s.world).db
      → object_at (s.world).db n s.working_directory ≡ none
      → is_directory_path S T s.userid s.working_directory (s.world).db ≡ true
      → run_mkd S rand n s
        ≡ returned (
            answer
              (codes "250 Directory created.")
              (record s { world = inserted S rand s.userid n s.working_directory 0 true s.world }))
  unfolding run_mkd
  run_mkd-name n s h a ids free parent =
      rw
        (
          h.1,
          (name_place s.working_directory n a h).0,
          create_object_lem S T L rand s.userid n s.working_directory 0 true s.world ids,
          free,
          parent,
          (uuid-IsId rand (s.world).draws).0,
        )
        refl

  -- Under the laws of the tables, with well-made identifiers in the rows and an absolute working
  -- directory that is the root or a directory of the user: MKD of a name other than `..` with no
  -- slash, that no row has there, under a fresh identifier, returns; CWD with that name then
  -- enters the path of the new directory, and CDUP leads back to where MKD was.
  pub mkd_cwd_cdup :
      (n : Bytes) (s : Session S.Db)
      → IsName n
      → same n (codes "..") ≡ false
      → IsAbsolute s.working_directory
      → HasIds S T (s.world).db
      → object_at (s.world).db n s.working_directory ≡ none
      → is_directory_path S T s.userid s.working_directory (s.world).db ≡ true
      → IsFresh S T (s.world).db (uuid S rand s.world)
      → (made entered_it : Session S.Db) × (run_mkd S rand n s ≡ returned made)
        × (run_cwd S rand n made ≡ returned entered_it)
        × (entered_it.working_directory ≡ child_path s.working_directory n)
        × ((run_cdup S rand entered_it).working_directory ≡ s.working_directory)
  unfolding run_cdup
  mkd_cwd_cdup n s h dots a ids free parent fresh =
      let wd = s.working_directory in
      let row = new_row S T (s.world).db (uuid S rand s.world) n wd 0 true s.userid in
      let w = inserted S rand s.userid n wd 0 true s.world in
      let made = answer (codes "250 Directory created.") (record s { world = w }) in
      let table =
        L.create_free (s.world).db (uuid S rand s.world) n wd 0 true s.userid free fresh in
      let own : owns S T s.userid n wd w.db ≡ true =
        ap (λ (t : Table). is_owned s.userid (t n wd)) table
        ∙ rw (same_refl n, same_refl wd) (same_refl s.userid) in
      let ids' : HasIds S T w.db =
        subst (λ (t : Table). (m q : Bytes) (r : ObjectRow) → t m q ≡ some r → IsId r.object_id)
          (sym table)
          (put_row-HasIds (object_at (s.world).db) row (uuid-IsId rand (s.world).draws) ids) in
      (
        made,
        answer changed (record made { working_directory = child_path wd n }),
        run_mkd-name n s h a ids free parent,
        run_cwd-name n made h dots ids' ∙ rw own refl,
        refl,
        (parent_basename-child wd n a h.0).0,
      )
