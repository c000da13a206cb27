-- ===== src/Session/Upload/Existing.antt =====
-- An upload over a file that is there.
use asio_ftp.Base.{
  ℕ, ◌+◌, ◌≡◌, refl, ap, ◌∙◌, Bool, true, some, List, [], Bytes, same, same_refl, returned, length,
  ◌>>=◌, c_string,
}
use asio_ftp.Helpers.Decimal.{stoll}
use asio_ftp.Helpers.Paths.{get_basename, get_parent_path}
use asio_ftp.Database.Sqlite.{Sqlite}
use asio_ftp.Database.Schema.{ObjectRow, Tables, IsLawful}
use asio_ftp.Database.World.{write_file, data_file}
use asio_ftp.Database.Objects.{FsObject, get_object}
use asio_ftp.Database.Objects.Lookup.{HasIds, object_of_row, get_object_lem}
use asio_ftp.Session.State.{Session, does, data_receiving}
use asio_ftp.Session.Transfer.{data_receive_file, open_existing, open_stream}
use asio_ftp.Session.Upload.{joined, receive_blocks, Stored, receive_blocks-Stored}

module _ (S : Sqlite) (T : Tables S) (L : IsLawful S T) (rand : ℕ → ℕ)
    (can_open : Bytes → Bool) where
  open T use {object_at, now}

  -- The session once the path of an upload has been taken apart.
  abbrev pub named : Session S.Db → Session S.Db
  named s = record s {
    receive_file_path = get_parent_path s.pending_write_file;
    received_file_size = 0;
    receive_file_name = get_basename s.pending_write_file;
  }

  -- The session in which the upload of a file that is there starts.
  abbrev pub reopened : Session S.Db → ObjectRow → ℕ → Session S.Db
  reopened s r size = does data_receiving (record s {
    receive_file_path = get_parent_path s.pending_write_file;
    receive_file_name = get_basename s.pending_write_file;
    received_file_size = size;
    world = record (s.world) { files = write_file (s.world).files (data_file r.object_id) [] };
    receive_file_stream = some (data_file r.object_id);
  })

  open_existing_lem :
      (object : FsObject) (s : Session S.Db) (size : ℕ)
      → stoll object.size ≡ some size
      → can_open (data_file object.id) ≡ true
      → open_existing S rand can_open object s
        ≡ returned (
            does data_receiving (record s {
              received_file_size = size;
              world = record (s.world) {
                files = write_file (s.world).files (data_file object.id) [];
              };
              receive_file_stream = some (data_file object.id);
            }))
  unfolding open_existing open_stream
  open_existing_lem object s size number opens = rw (number, opens) refl

  data_receive_file_existing :
      (s : Session S.Db) (r : ObjectRow) (size : ℕ)
      → HasIds S T (s.world).db
      → object_at
          (s.world).db
          (get_basename s.pending_write_file)
          (get_parent_path s.pending_write_file)
        ≡ some r
      → same r.user_id s.userid ≡ true
      → stoll (c_string r.size) ≡ some size
      → can_open (data_file r.object_id) ≡ true
      → data_receive_file S rand can_open s ≡ returned (reopened s r size)
  unfolding data_receive_file
  data_receive_file_existing s r size ids there mine number opens =
      let found : get_object S s.userid (get_basename s.pending_write_file)
            (get_parent_path s.pending_write_file) s.world
          ≡ returned (record (object_of_row r) { id = r.object_id }, s.world) =
        get_object_lem S T L _ _ _ s.world
        ∙ rw (there, mine)
            (ap (λ i. returned (record (object_of_row r) { id = i }, s.world))
              (ids _ _ r there).1) in
      rw (found, (ids _ _ r there).0)
        (open_existing_lem (record (object_of_row r) { id = r.object_id }) (named s) size number
          opens)

  -- Under the laws of the tables, with well-made identifiers in the rows: an upload over an object
  -- of the user whose size is a number and whose file can be opened returns; the file holds the
  -- blocks, one behind the other, and no byte of what it held, but the size that is recorded is
  -- that of the old file and the blocks together. No upload is pending then.
  pub upload_existing :
      (blocks : List Bytes) (last : Bytes) (s : Session S.Db) (r : ObjectRow) (size : ℕ)
      → HasIds S T (s.world).db
      → object_at
          (s.world).db
          (get_basename s.pending_write_file)
          (get_parent_path s.pending_write_file)
        ≡ some r
      → same r.user_id s.userid ≡ true
      → stoll (c_string r.size) ≡ some size
      → can_open (data_file r.object_id) ≡ true
      → (s' : Session S.Db) × ((data_receive_file S rand can_open s
            >>= receive_blocks S rand can_open blocks last)
          ≡ returned s')
        × Stored S T L rand can_open
            (data_file r.object_id)
            (joined blocks last)
            (size + length (joined blocks last))
            r
            s
            s'
  upload_existing blocks last s r size ids there mine number opens =
      let first = reopened s r size in
      let (s', e, stored) =
        receive_blocks-Stored S T L rand can_open blocks last (data_file r.object_id) [] size first
          first r ids there mine
          (record {
            open_at = refl;
            holds = rw (same_refl (data_file r.object_id)) refl;
            counted = refl;
            same_db = refl;
            same_user = refl;
            same_name = refl;
            same_path = refl;
          }) in
      (
        s',
        rw (data_receive_file_existing s r size ids there mine number opens) e,
        record {
          contents_kept = stored.contents_kept;
          size_recorded = stored.size_recorded;
          idle = stored.idle;
        },
      )
