-- ===== src/Session/Endless.antt =====
-- src/ftp/base_session.cpp: RETR with no argument over an open data socket. What is opened then is the
-- directory of the files.
use asio_ftp.Base.{
  ℕ, zero, suc, ◌≡◌, refl, sym, ap, ◌∙◌, subst, Bool, true, false, none, some, [], ◌∷◌, ◌++◌,
  append-nil, Bytes, codes, same, returned, arith,
}
use asio_ftp.Database.Sqlite.{Sqlite}
use asio_ftp.Database.World.{data_file}
use asio_ftp.Session.State.{
  Session, Stage, unauthenticated, logged_in, InFile, answer, control_send, control_receive,
}
use asio_ftp.Session.Commands.{Command, find_command}
use asio_ftp.Session.Navigation.{parse_retr_argument, no_arguments}
use asio_ftp.Session.Transfer.{
  next_block, behind_block, read_block, send_from, data_async_send, send_contents, data_send_file,
}
use asio_ftp.Session.Insecure.{run_retr}
use asio_ftp.Session.Handler.{handle_command, run_found, dispatch, guard_login, run_logged_in}
use asio_ftp.Session.Download.{
  sent_data, is_sending, send_blocks, rest_of, next-behind, open-callback, send_blocks_step,
  read_block-open, read_block-sent,
}

-- An open directory: nothing can be read from it, and its end is never met.
abbrev directory : InFile
directory = record { unread = []; at_end = false; can_read = false }

nothing_left : (p q : Bytes) → p ++ q ≡ [] → (p ≡ []) × (q ≡ [])
nothing_left [] q e = (refl, e)
nothing_left (c ∷ p) q e = absurd (cc e)

rest_of-directory : rest_of directory ≡ directory
rest_of-directory =
    ap (λ (bytes : Bytes). record directory { unread = bytes })
      (nothing_left (next_block []) (behind_block []) (next-behind [])).1

module _ {Db : Type 0} where
  abbrev Sends : Bytes → Session Db → Type 0
  Sends bytes s = (sent_data s.out ≡ bytes) × (is_sending s.send_file_stream ≡ true)

  directory-Sends :
      (k : ℕ) (s : Session Db)
      → s.send_file_stream ≡ some directory
      → Sends (sent_data s.out) (send_blocks k s)
  unfolding send_blocks
  directory-Sends zero s e = (refl, ap is_sending e)
  directory-Sends (suc k) s e =
      let next = read_block directory s in
      let silent : sent_data next.out ≡ sent_data s.out =
        read_block-sent directory s
        ∙ ap (λ x. sent_data s.out ++ x)
            (nothing_left (next_block []) (behind_block []) (next-behind [])).0
        ∙ append-nil (sent_data s.out) in
      subst (Sends (sent_data s.out))
        (sym (
          send_blocks_step k directory s e ∙ ap (send_blocks k) (open-callback directory s e refl)))
        (subst (λ bytes. Sends bytes (send_blocks k next)) silent
          (directory-Sends k next (read_block-open directory s ∙ ap some rest_of-directory)))

module _ (S : Sqlite) (rand : ℕ → ℕ) (can_open : Bytes → Bool) where
  -- RETR opens the directory and reads a first block of nothing.
  abbrev begun : Session S.Db → Session S.Db
  begun s = record (control_send (codes "150 Opening connection.") s) {
    send_file_stream = some directory;
  }

  retr_lem :
      (s : Session S.Db)
      → s.data_socket_open ≡ true
      → s.sendable_file_id ≡ []
      → (s.world).files (data_file []) ≡ none
      → can_open (data_file []) ≡ true
      → run_retr S rand can_open s ≡ control_receive (read_block directory (begun s))
  unfolding run_retr data_send_file send_contents data_async_send send_from
  retr_lem s e unnamed missing opens =
      let files = (s.world).files in
      let none_there : files (data_file s.sendable_file_id) ≡ none =
        ap (λ id. files (data_file id)) unnamed ∙ missing in
      let can : can_open (data_file s.sendable_file_id) ≡ true =
        ap (λ id. can_open (data_file id)) unnamed ∙ opens in
      ground (arith, e, unnamed, none_there, can)

  retr-Sends :
      (k : ℕ) (s : Session S.Db)
      → s.data_socket_open ≡ true
      → s.sendable_file_id ≡ []
      → (s.world).files (data_file []) ≡ none
      → can_open (data_file []) ≡ true
      → Sends (sent_data s.out) (send_blocks k (run_retr S rand can_open s))
  retr-Sends k s e unnamed missing opens =
      let t = read_block directory (begun s) in
      let silent : sent_data t.out ≡ sent_data s.out =
        read_block-sent directory (begun s)
        ∙ ap (λ x. sent_data s.out ++ x)
            (nothing_left (next_block []) (behind_block []) (next-behind [])).0
        ∙ append-nil (sent_data s.out) in
      subst (λ (x : Session S.Db). Sends (sent_data s.out) (send_blocks k x))
        (sym (retr_lem s e unnamed missing opens))
        (subst (λ bytes. Sends bytes (send_blocks k (control_receive t))) silent
          (directory-Sends k (control_receive t)
            (read_block-open directory (begun s) ∙ ap some rest_of-directory)))

  retr_run :
      (stage : Stage) (s s' : Session S.Db)
      → stage ≡ logged_in
      → guard_login S rand can_open stage Command.retr [] s ≡ returned s'
      → run_retr S rand can_open (answer no_arguments s) ≡ s'
  unfolding guard_login run_logged_in parse_retr_argument
  retr_run unauthenticated s s' h e = absurd (cc h)
  retr_run logged_in s s' h e = cc e

  -- RETR with no argument, of a client that is logged in, with an open data socket and no file chosen,
  -- where the directory `data/` can be opened as a stream, which has no contents to read: however often
  -- the handler of the write is called with success, it sends no byte and the download has not ended.
  pub handle_command-endless :
      (k : ℕ) (s s' : Session S.Db)
      → s.connection_stage ≡ logged_in
      → s.data_socket_open ≡ true
      → s.sendable_file_id ≡ []
      → (s.world).files (data_file []) ≡ none
      → can_open (data_file []) ≡ true
      → handle_command S rand can_open (codes "RETR") [] s ≡ returned s'
      → (sent_data (send_blocks k s').out ≡ sent_data s.out)
        × (is_sending (send_blocks k s').send_file_stream ≡ true)
  unfolding handle_command run_found dispatch find_command same
  handle_command-endless k s s' logged e unnamed missing opens run =
      subst (λ (x : Session S.Db). Sends (sent_data s.out) (send_blocks k x))
        (retr_run s.connection_stage s s' logged run)
        (retr-Sends k (answer no_arguments s) e unnamed missing opens)
