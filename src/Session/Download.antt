-- ===== src/Session/Download.antt =====
-- A whole download: the blocks that are read and sent, until the file is at its end.
use asio_ftp.Base.{
  ℕ, zero, suc, ◌+◌, ◌≤◌, ◌<◌, ◌≡◌, refl, sym, ap, ◌∙◌, subst, Bool, true, false, ◌&&◌, Option,
  none, some, List, [], ◌∷◌, ◌++◌, append_assoc, append-nil, Bytes, length, drop, take-append-drop,
  length-drop, arith, ltb, if◌then◌else◌, Bool-cases, inl, inr,
}
use asio_ftp.Database.Sqlite.{Sqlite}
use asio_ftp.Database.World.{data_file}
use asio_ftp.Session.State.{Session, Action, data_sent, InFile, success, send_buffer_size}
use asio_ftp.Session.Transfer.{
  next_block, behind_block, is_short, read_block, send_from, data_async_send, data_async_send_end,
  handle_data_async_send_callback, data_close, send_contents, data_send_file,
}

-- The bytes written to the data socket, the oldest first.
abbrev pub sent_data : List Action → Bytes
sent_data [] = []
sent_data (data_sent block ∷ actions) = sent_data actions ++ block
sent_data (_ ∷ actions) = sent_data actions

-- Whether a file is being sent.
abbrev pub is_sending : Option InFile → Bool
is_sending none = false
is_sending (some f) = true

-- The calls that are enough for what is left of a file.
abbrev enough : InFile → ℕ
enough f = if f.at_end then 1 else length f.unread + 2

-- The file behind a block.
abbrev pub rest_of : InFile → InFile
rest_of f = record {
  unread = behind_block f.unread;
  at_end = f.can_read && is_short f.unread;
  can_read = f.can_read;
}

-- A file at its end has no bytes left.
abbrev IsDrained : InFile → Type 0
IsDrained f = f.at_end ≡ true → f.unread ≡ []

nil_of_length : (xs : Bytes) → length xs ≡ 0 → xs ≡ []
nil_of_length [] h = refl
nil_of_length (x ∷ xs) h = absurd (omega arith)

drop_short : (n : ℕ) (xs : Bytes) → ltb (length xs) n ≡ true → drop n xs ≡ []
drop_short n xs h = nil_of_length (drop n xs) (length-drop n xs ∙ ground (arith, h))

drop_shorter :
    (n : ℕ) (xs : Bytes) → 1 ≤ n → ltb (length xs) n ≡ false → suc (length (drop n xs)) ≤ length xs
drop_shorter n xs p h = ground (arith, length-drop n xs, h)

pub next-behind : (xs : Bytes) → next_block xs ++ behind_block xs ≡ xs
unfolding next_block behind_block
next-behind xs = take-append-drop send_buffer_size xs

rest-IsDrained : (f : InFile) → IsDrained (rest_of f)
unfolding behind_block is_short
rest-IsDrained f h = drop_short send_buffer_size f.unread (ground (arith, h))

length-behind : (xs : Bytes) → is_short xs ≡ false → suc (length (behind_block xs)) ≤ length xs
unfolding behind_block is_short
length-behind xs h = drop_shorter send_buffer_size xs (omega arith) h

enough-rest :
    (f : InFile) (k : ℕ)
    → f.can_read ≡ true
    → f.at_end ≡ false
    → enough f ≤ suc k
    → enough (rest_of f) ≤ k
enough-rest f k reads more h = ground (arith, length-behind f.unread, reads, h)

module _ {Db : Type 0} where
  -- The handler is called once for each block that is sent, as long as a file is open.
  unfoldable pub send_blocks : ℕ → Session Db → Session Db
  send_blocks zero s = s
  send_blocks (suc k) s =
      let rest = send_blocks k (handle_data_async_send_callback success s) in
      if is_sending s.send_file_stream then rest else s

  at_end-callback :
      (f : InFile) (s : Session Db)
      → s.send_file_stream ≡ some f
      → f.at_end ≡ true
      → handle_data_async_send_callback success s ≡ data_async_send_end s
  unfolding handle_data_async_send_callback
  at_end-callback f s e h = ground arith

  pub open-callback :
      (f : InFile) (s : Session Db)
      → s.send_file_stream ≡ some f
      → f.at_end ≡ false
      → handle_data_async_send_callback success s ≡ read_block f s
  unfolding handle_data_async_send_callback data_async_send send_from
  open-callback f s e h = ground arith

  end-sent : (s : Session Db) → sent_data (data_async_send_end s).out ≡ sent_data s.out
  unfolding data_async_send_end data_close
  end-sent s = ground arith

  end-idle : (s : Session Db) → (data_async_send_end s).send_file_stream ≡ none
  unfolding data_async_send_end data_close
  end-idle s = ground arith

  pub send_blocks_step :
      (k : ℕ) (f : InFile) (s : Session Db)
      → s.send_file_stream ≡ some f
      → send_blocks (suc k) s ≡ send_blocks k (handle_data_async_send_callback success s)
  unfolding send_blocks
  send_blocks_step k f s e = ground arith

  send_blocks_idle : (k : ℕ) (s : Session Db) → s.send_file_stream ≡ none → send_blocks k s ≡ s
  unfolding send_blocks
  send_blocks_idle zero s e = refl
  send_blocks_idle (suc k) s e = ground arith

  -- What the sent bytes and the open file are in the end.
  abbrev Sends : Bytes → Session Db → Type 0
  Sends bytes s = (sent_data s.out ≡ bytes) × (s.send_file_stream ≡ none)

  pub read_block-open :
      (f : InFile) (s : Session Db) → (read_block f s).send_file_stream ≡ some (rest_of f)
  unfolding read_block
  read_block-open f s = refl

  pub read_block-sent :
      (f : InFile) (s : Session Db)
      → sent_data (read_block f s).out ≡ sent_data s.out ++ next_block f.unread
  unfolding read_block
  read_block-sent f s = refl

  send_blocks_lem :
      (k : ℕ) (f : InFile) (s : Session Db)
      → s.send_file_stream ≡ some f
      → f.can_read ≡ true
      → IsDrained f
      → enough f ≤ k
      → Sends (sent_data s.out ++ f.unread) (send_blocks k s)
  send_blocks_lem zero f s e reads d h = absurd (ground arith)
  send_blocks_lem (suc k) f s e reads d h = elim (Bool-cases f.at_end) [
    | inl ended ↦
        subst (Sends (sent_data s.out ++ f.unread))
          (sym (
            send_blocks_step k f s e
            ∙ ap (send_blocks k) (at_end-callback f s e ended)
            ∙ send_blocks_idle k (data_async_send_end s) (end-idle s)))
          (
            end-sent s
                ∙ sym (append-nil (sent_data s.out))
                ∙ ap (λ x. sent_data s.out ++ x) (sym (d ended)),
            end-idle s,
          )
    | inr more ↦
        subst (Sends (sent_data s.out ++ f.unread))
          (sym (send_blocks_step k f s e ∙ ap (send_blocks k) (open-callback f s e more)))
          (subst (λ bytes. Sends bytes (send_blocks k (read_block f s)))
            (ap (λ x. x ++ behind_block f.unread) (read_block-sent f s)
              ∙ append_assoc (sent_data s.out) (next_block f.unread) (behind_block f.unread)
              ∙ ap (λ x. sent_data s.out ++ x) (next-behind f.unread))
            (send_blocks_lem k (rest_of f) (read_block f s) (read_block-open f s) reads
              (rest-IsDrained f) (enough-rest f k reads more h)))
  ]

module _ (S : Sqlite) (rand : ℕ → ℕ) (can_open : Bytes → Bool) where
  pub data_send_file_lem :
      (s : Session S.Db) (contents : Bytes)
      → (s.world).files (data_file s.sendable_file_id) ≡ some contents
      → can_open (data_file s.sendable_file_id) ≡ true
      → data_send_file S rand can_open s
        ≡ read_block
            (record { unread = contents; at_end = false; can_read = true })
            (record s {
              send_file_stream =
                  some (record { unread = contents; at_end = false; can_read = true });
            })
  unfolding data_send_file send_contents data_async_send send_from
  data_send_file_lem s contents there opens =
      ap (λ o. send_contents S rand can_open o s) there ∙ rw opens refl

  -- A download of a file that is there and can be opened ends, with one call more than the file
  -- has bytes or after more calls: no file is open then, and the bytes written to the data socket
  -- are the file's, in their order, behind those written before.
  pub download :
      (s : Session S.Db) (contents : Bytes) (k : ℕ)
      → (s.world).files (data_file s.sendable_file_id) ≡ some contents
      → can_open (data_file s.sendable_file_id) ≡ true
      → length contents < k
      → let s' = send_blocks k (data_send_file S rand can_open s) in
        (sent_data s'.out ≡ sent_data s.out ++ contents) × (s'.send_file_stream ≡ none)
  download s contents k there opens h =
      let f : InFile = record { unread = contents; at_end = false; can_read = true } in
      let opened : Session S.Db = record s { send_file_stream = some f } in
      subst (λ (x : Session S.Db). Sends (sent_data s.out ++ contents) (send_blocks k x))
        (sym (data_send_file_lem s contents there opens))
        (subst (λ bytes. Sends bytes (send_blocks k (read_block f opened)))
          (ap (λ x. x ++ behind_block contents) (read_block-sent f opened)
            ∙ append_assoc (sent_data s.out) (next_block contents) (behind_block contents)
            ∙ ap (λ x. sent_data s.out ++ x) (next-behind contents))
          (send_blocks_lem k (rest_of f) (read_block f opened) (read_block-open f opened) refl
            (rest-IsDrained f) (enough-rest f k refl refl (omega (arith, h)))))
