-- ===== src/Session/Upload.antt =====
-- A whole upload: opening the file, the blocks as they come in, and the end of the stream.
pub mod Existing
pub mod Fresh
use asio_ftp.Base.{
  ℕ, ◌+◌, ◌≡◌, refl, sym, ap, ◌∙◌, subst, Bool, true, false, not, Option, none, some, List, [], ◌∷◌,
  ◌++◌, append_assoc, append-nil, Bytes, same, same_refl, returned, length, length-append, arith,
  Result, ◌>>=◌, is_empty, codes, c_string,
}
use asio_ftp.Helpers.Decimal.{to_string, stoll}
use asio_ftp.Helpers.Paths.{get_basename, get_parent_path}
use asio_ftp.Database.Sqlite.{Sqlite}
use asio_ftp.Database.Schema.{ObjectRow, Tables, IsLawful, change_rows, with_size}
use asio_ftp.Database.World.{World, write_file, data_file}
use asio_ftp.Database.Objects.{FsObject, get_object}
use asio_ftp.Database.Objects.Lookup.{HasIds, object_of_row, get_object_lem}
use asio_ftp.Database.Objects.Update.{update_object_size_lem}
use asio_ftp.Session.State.{Session, control_send, ErrorCode, success, eof, does, data_receiving}
use asio_ftp.Session.Transfer.{
  data_receive_file, open_existing, open_new, open_stream, append_to, append_block,
  contents_or_empty, data_async_receive_end, handle_data_async_receive_callback, data_close,
}

-- The blocks of a stream, one behind the other.
abbrev pub joined : List Bytes → Bytes → Bytes
joined [] last = last
joined (block ∷ blocks) last = block ++ joined blocks last

module _ (S : Sqlite) (rand : ℕ → ℕ) (can_open : Bytes → Bool) where
  -- The handler is called once for each block, and with `eof` for the last one.
  unfoldable pub receive_blocks : List Bytes → Bytes → Session S.Db → Result (Session S.Db)
  receive_blocks [] last s = handle_data_async_receive_callback S rand can_open eof last true s
  receive_blocks (block ∷ blocks) last s = do
    s' ← handle_data_async_receive_callback S rand can_open success block true s
    receive_blocks blocks last s'

module _ (S : Sqlite) (T : Tables S) (L : IsLawful S T) (rand : ℕ → ℕ)
    (can_open : Bytes → Bool) where
  open T use {object_at, now}

  -- A session that writes to a file, which holds `c`, and has counted `n` bytes. What an upload does
  -- not touch is as in the first state.
  pub record Writing (path c : Bytes) (n : ℕ) (first s : Session S.Db) : Type 0 where
    pub open_at : s.receive_file_stream ≡ some path
    pub holds : (s.world).files path ≡ some c
    pub counted : s.received_file_size ≡ n
    pub same_db : (s.world).db ≡ (first.world).db
    pub same_user : s.userid ≡ first.userid
    pub same_name : s.receive_file_name ≡ first.receive_file_name
    pub same_path : s.receive_file_path ≡ first.receive_file_path

  -- The state behind a block, once the path is known.
  abbrev behind : Bytes → Bytes → Session S.Db → Session S.Db
  behind path block s = record s {
    received_file_size = s.received_file_size + length block;
    world = record (s.world) {
      files = write_file (s.world).files path (contents_or_empty ((s.world).files path) ++ block);
    };
  }

  append_block_lem :
      (path block c : Bytes) (s : Session S.Db)
      → s.receive_file_stream ≡ some path
      → (s.world).files path ≡ some c
      → append_block S rand can_open block
          (record s { received_file_size = s.received_file_size + length block })
        ≡ behind path block s
  unfolding append_block append_to
  append_block_lem path block c s e holds =
      let t : Session S.Db = record s {
        received_file_size = s.received_file_size + length block;
      } in
      ap (λ o. append_to S rand can_open o block t) e
      ∙ ap
          (λ (o : Option Bytes). elim o [
            | none ↦ t
            | some contents ↦ record t {
              world = record (s.world) {
                files = write_file (s.world).files path (contents ++ block);
              };
            }
          ])
          holds
      ∙ ap
          (λ (o : Option Bytes). record t {
            world = record (s.world) {
              files = write_file (s.world).files path (contents_or_empty o ++ block);
            };
          })
          (sym holds)

  behind-Writing :
      (path c block : Bytes) (n : ℕ) (first s : Session S.Db)
      → Writing path c n first s
      → Writing path (c ++ block) (n + length block) first (behind path block s)
  behind-Writing path c block n first s h = record {
    open_at = h.open_at;
    holds = rw (same_refl path) (ap (λ o. some (contents_or_empty o ++ block)) h.holds);
    counted = ap (λ k. k + length block) h.counted;
    same_db = h.same_db;
    same_user = h.same_user;
    same_name = h.same_name;
    same_path = h.same_path;
  }

  received-Writing :
      (path c : Bytes) (n : ℕ) (first s : Session S.Db)
      → Writing path c n first s
      → Writing path c n first (does data_receiving s)
  received-Writing path c n first s h = record {
    open_at = h.open_at;
    holds = h.holds;
    counted = h.counted;
    same_db = h.same_db;
    same_user = h.same_user;
    same_name = h.same_name;
    same_path = h.same_path;
  }

  callback_success :
      (path block c : Bytes) (s : Session S.Db)
      → s.receive_file_stream ≡ some path
      → (s.world).files path ≡ some c
      → handle_data_async_receive_callback S rand can_open success block true s
        ≡ returned (does data_receiving (behind path block s))
  unfolding handle_data_async_receive_callback
  callback_success path block c s e holds =
      ap (λ (x : Session S.Db). returned (does data_receiving x))
        (append_block_lem path block c s e holds)

  callback_eof :
      (path block c : Bytes) (s : Session S.Db)
      → s.receive_file_stream ≡ some path
      → (s.world).files path ≡ some c
      → handle_data_async_receive_callback S rand can_open eof block true s
        ≡ data_async_receive_end S rand can_open (behind path block s)
  unfolding handle_data_async_receive_callback
  callback_eof path block c s e holds =
      ap (data_async_receive_end S rand can_open) (append_block_lem path block c s e holds)

  -- What an upload leaves: the contents of the file, and the size in the table.
  pub record Stored (path contents : Bytes) (size : ℕ) (r : ObjectRow) (first s' : Session S.Db)
      : Type 0 where
    pub contents_kept : (s'.world).files path ≡ some contents
    pub size_recorded :
        object_at (s'.world).db
        ≡ change_rows
            (with_size r.object_id (to_string size) (now (first.world).db))
            (object_at (first.world).db)
    pub idle : is_empty s'.pending_write_file ≡ true

  -- The session that ends an upload, before the data socket is closed.
  abbrev ended : S.Db → Session S.Db → Session S.Db
  ended db s = control_send (codes "226 Received.") (record s {
    world = record (s.world) { db = db };
    receive_file_stream = none;
    pending_write_file = [];
  })

  data_close-world : (s : Session S.Db) → (data_close s).world ≡ s.world
  unfolding data_close
  data_close-world s = ground arith

  data_close-pending : (s : Session S.Db) → (data_close s).pending_write_file ≡ s.pending_write_file
  unfolding data_close
  data_close-pending s = ground arith

  end_lem :
      (s : Session S.Db) (r : ObjectRow)
      → HasIds S T (s.world).db
      → object_at (s.world).db s.receive_file_name s.receive_file_path ≡ some r
      → same r.user_id s.userid ≡ true
      → (db : S.Db) × (data_async_receive_end S rand can_open s
          ≡ returned (data_close (ended db s)))
        × (object_at db
            ≡ change_rows
                (with_size r.object_id (to_string s.received_file_size) (now (s.world).db))
                (object_at (s.world).db))
  unfolding data_async_receive_end
  end_lem s r ids there mine =
      let (db, e, t) =
        update_object_size_lem S T L s.userid s.receive_file_name s.receive_file_path
          s.received_file_size s.world r ids there mine in
      (db, rw e refl, t)

  end-Stored :
      (path c : Bytes) (n : ℕ) (first s : Session S.Db) (r : ObjectRow)
      → HasIds S T (first.world).db
      → object_at (first.world).db first.receive_file_name first.receive_file_path ≡ some r
      → same r.user_id first.userid ≡ true
      → Writing path c n first s
      → (s' : Session S.Db) × (data_async_receive_end S rand can_open s ≡ returned s')
        × Stored path c n r first s'
  end-Stored path c n first s r ids there mine h =
      let (db, e, t) =
        end_lem s r (subst (HasIds S T) (sym h.same_db) ids)
          (cc (there, h.same_db, h.same_name, h.same_path)) (cc (mine, h.same_user)) in
      (
        data_close (ended db s),
        e,
        record {
          contents_kept =
              ap (λ (w : World S.Db). w.files path) (data_close-world (ended db s)) ∙ h.holds;
          size_recorded =
              ap (λ (w : World S.Db). object_at w.db) (data_close-world (ended db s))
              ∙ t
              ∙ ap
                  (λ k.
                    change_rows (with_size r.object_id (to_string k) (now (s.world).db))
                      (object_at (s.world).db))
                  h.counted
              ∙ ap (λ d. change_rows (with_size r.object_id (to_string n) (now d)) (object_at d))
                  h.same_db;
          idle = ap is_empty (data_close-pending (ended db s));
        },
      )

  pub receive_blocks-Stored :
      (blocks : List Bytes) (last path c : Bytes) (n : ℕ) (first s : Session S.Db) (r : ObjectRow)
      → HasIds S T (first.world).db
      → object_at (first.world).db first.receive_file_name first.receive_file_path ≡ some r
      → same r.user_id first.userid ≡ true
      → Writing path c n first s
      → (s' : Session S.Db) × (receive_blocks S rand can_open blocks last s ≡ returned s')
        × Stored path (c ++ joined blocks last) (n + length (joined blocks last)) r first s'
  unfolding receive_blocks
  receive_blocks-Stored [] last path c n first s r ids there mine h =
      let (s', e, stored) =
        end-Stored path (c ++ last) (n + length last) first (behind path last s) r ids there mine
          (behind-Writing path c last n first s h) in
      (s', callback_eof path last c s h.open_at h.holds ∙ e, stored)
  receive_blocks-Stored (block ∷ blocks) last path c n first s r ids there mine h =
      let next = does data_receiving (behind path block s) in
      let (s', e, stored) =
        receive_blocks-Stored blocks last path (c ++ block) (n + length block) first next r ids
          there mine
          (received-Writing path (c ++ block) (n + length block) first (behind path block s)
            (behind-Writing path c block n first s h)) in
      (
        s',
        rw (callback_success path block c s h.open_at h.holds) e,
        subst (λ c'. Stored path c' (n + length (joined (block ∷ blocks) last)) r first s')
            (append_assoc c block (joined blocks last))
            (subst (λ k. Stored path ((c ++ block) ++ joined blocks last) k r first s')
              (omega (arith, length-append block (joined blocks last))) stored),
      )
