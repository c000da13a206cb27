-- ===== src/Session/Upload/Fresh.antt =====
-- An upload to a file that is new.
use asio_ftp.Base.{
  ℕ, ◌+◌, ◌≡◌, refl, sym, ap, ◌∙◌, subst, Bool, true, false, none, some, List, [], Bytes, same_refl,
  returned, length, arith, ◌>>=◌,
}
use asio_ftp.Helpers.Decimal.{to_string}
use asio_ftp.Helpers.Paths.{get_basename, get_parent_path}
use asio_ftp.Database.Sqlite.{Sqlite}
use asio_ftp.Database.Schema.{ObjectRow, Tables, IsLawful, with_size}
use asio_ftp.Database.World.{write_file, data_file}
use asio_ftp.Database.Objects.{get_object}
use asio_ftp.Database.Objects.Lookup.{HasIds, get_object_lem}
use asio_ftp.Session.State.{Session, does, data_receiving}
use asio_ftp.Session.Transfer.{data_receive_file, open_new, open_stream, contents_or_empty}
use asio_ftp.Database.Objects.{no_object, create_object}
use asio_ftp.Database.Objects.Lookup.{IsId}
use asio_ftp.Database.Schema.{Table, change_row, new_row, IsFresh}
use asio_ftp.Database.Objects.Create.{
  put_row-HasIds, uuid, uuid-IsId, inserted, is_directory_path, create_object_lem,
}
use asio_ftp.Session.Upload.{joined, receive_blocks, receive_blocks-Stored}

module _ (S : Sqlite) (T : Tables S) (L : IsLawful S T) (rand : ℕ → ℕ)
    (can_open : Bytes → Bool) where
  open T use {object_at, now}

  -- The session in which the upload of a new file starts.
  abbrev pub opened : Session S.Db → Session S.Db
  opened s =
      let id = uuid S rand s.world in
      let w =
        inserted S rand s.userid (get_basename s.pending_write_file)
          (get_parent_path s.pending_write_file) 0 false s.world in
      does data_receiving (record s {
        receive_file_path = get_parent_path s.pending_write_file;
        receive_file_name = get_basename s.pending_write_file;
        received_file_size = 0;
        world = record w {
          files = write_file w.files (data_file id) (contents_or_empty (w.files (data_file id)));
        };
        receive_file_stream = some (data_file id);
      })

  module _ (s : Session S.Db) (ids : HasIds S T (s.world).db) where
    abbrev n : Bytes
    n = get_basename s.pending_write_file

    abbrev p : Bytes
    p = get_parent_path s.pending_write_file

    abbrev row : ObjectRow
    row = new_row S T (s.world).db (uuid S rand s.world) n p 0 false s.userid

    seen_missing :
        object_at (s.world).db n p ≡ none
        → get_object S s.userid n p s.world ≡ returned (no_object, s.world)
    seen_missing free = get_object_lem S T L s.userid n p s.world ∙ rw free refl

    created :
        object_at (s.world).db n p ≡ none
        → is_directory_path S T s.userid p (s.world).db ≡ true
        → create_object S rand s.userid n p 0 false s.world
          ≡ returned (uuid S rand s.world, inserted S rand s.userid n p 0 false s.world)
    created free parent =
        create_object_lem S T L rand s.userid n p 0 false s.world ids ∙ rw (free, parent) refl

    data_receive_file_new :
        object_at (s.world).db n p ≡ none
        → is_directory_path S T s.userid p (s.world).db ≡ true
        → can_open (data_file (uuid S rand s.world)) ≡ true
        → data_receive_file S rand can_open s ≡ returned (opened s)
    unfolding data_receive_file open_new open_stream
    data_receive_file_new free parent opens =
        rw (seen_missing free, created free parent, opens) refl

    -- Under the laws of the tables, with well-made identifiers in the rows: an upload to a name
    -- and a path that no row has, in the root or a directory of the user, under a fresh identifier
    -- whose file is not there and can be opened, returns; the file holds the blocks, one behind
    -- the other, and the row that the table then has at the name and the path has their length as
    -- its size.
    pub upload_new :
        (blocks : List Bytes) (last : Bytes)
        → object_at (s.world).db n p ≡ none
        → is_directory_path S T s.userid p (s.world).db ≡ true
        → IsFresh S T (s.world).db (uuid S rand s.world)
        → (s.world).files (data_file (uuid S rand s.world)) ≡ none
        → can_open (data_file (uuid S rand s.world)) ≡ true
        → (s' : Session S.Db) × (modified : Bytes) × ((data_receive_file S rand can_open s
              >>= receive_blocks S rand can_open blocks last)
            ≡ returned s')
          × ((s'.world).files (data_file (uuid S rand s.world)) ≡ some (joined blocks last))
          × (object_at (s'.world).db n p
              ≡ some (record row {
                size = to_string (length (joined blocks last));
                modified_time = modified;
              }))
    upload_new blocks last free parent fresh no_file opens =
        let id = uuid S rand s.world in
        let bare : 0 + length (joined blocks last) ≡ length (joined blocks last) = omega arith in
        let first = opened s in
        let table = L.create_free (s.world).db id n p 0 false s.userid free fresh in
        let there : object_at (first.world).db n p ≡ some row =
          ap (λ (t : Table). t n p) table ∙ rw (same_refl n, same_refl p) refl in
        let (s', e, stored) =
          receive_blocks-Stored S T L rand can_open blocks last (data_file id) [] 0 first first row
            (subst
              (λ (t : Table). (m q : Bytes) (r : ObjectRow) → t m q ≡ some r → IsId r.object_id)
              (sym table)
              (put_row-HasIds (object_at (s.world).db) row (uuid-IsId rand (s.world).draws) ids))
            there (same_refl s.userid)
            (record {
              open_at = refl;
              holds = rw (same_refl (data_file id)) (ap (λ o. some (contents_or_empty o)) no_file);
              counted = refl;
              same_db = refl;
              same_user = refl;
              same_name = refl;
              same_path = refl;
            }) in
        (
          s',
          now (first.world).db,
          rw (data_receive_file_new free parent opens) e,
          stored.contents_kept,
          ap (λ (t : Table). t n p) stored.size_recorded
              ∙ ap
                  (change_row (
                    with_size id (to_string (0 + length (joined blocks last)))
                      (now (first.world).db)))
                  there
              ∙ rw (same_refl id, bare) refl,
        )
