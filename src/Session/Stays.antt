-- ===== src/Session/Stays.antt =====
-- The commands and the transfers that do not touch the working directory.
use asio_ftp.Base.{ℕ, ◌≡◌, Bool, Bytes, returned, arith, Result}
use asio_ftp.Database.Sqlite.{Sqlite}
use asio_ftp.Session.State.{Session}
use asio_ftp.Session.Navigation.{parse_retr_argument}
use asio_ftp.Session.Transfer.{
  data_directory_listing, data_receive_file, data_send_file, send_contents, data_async_send,
  send_from, read_block, data_close, close_open, open_stream, open_new, open_existing,
}
use asio_ftp.Session.Insecure.{run_list, run_stor, start_stor, run_retr}

module _ (S : Sqlite) (rand : ℕ → ℕ) (can_open : Bytes → Bool) where
  abbrev Stays : Session S.Db → Result (Session S.Db) → Type 0
  Stays s m = (s' : Session S.Db) → m ≡ returned s' → s'.working_directory ≡ s.working_directory

  pub lists-Stays :
      (s s' : Session S.Db)
      → data_directory_listing S rand can_open s ≡ returned s'
      → s'.working_directory ≡ s.working_directory
  unfolding data_directory_listing
  lists-Stays s s' e = ground arith

  pub receives-Stays :
      (s s' : Session S.Db)
      → data_receive_file S rand can_open s ≡ returned s'
      → s'.working_directory ≡ s.working_directory
  unfolding data_receive_file open_new open_existing open_stream data_close close_open
  receives-Stays s s' e = ground arith

  pub sends-Stays :
      (s : Session S.Db)
      → (data_send_file S rand can_open s).working_directory ≡ s.working_directory
  unfolding data_send_file send_contents data_async_send send_from read_block data_close close_open
  sends-Stays s = ground arith

  pub run_list-Stays :
      (argument : Bytes) (s : Session S.Db) → Stays s (run_list S rand can_open argument s)
  unfolding run_list data_directory_listing
  run_list-Stays argument s s' e = ground arith

  start_stor-Stays : (s : Session S.Db) → Stays s (start_stor S rand can_open s)
  unfolding start_stor data_receive_file open_new open_existing open_stream data_close
  start_stor-Stays s s' e = ground arith

  pub run_stor-Stays :
      (argument : Bytes) (s : Session S.Db) → Stays s (run_stor S rand can_open argument s)
  unfolding run_stor start_stor data_receive_file open_new open_existing open_stream data_close
  run_stor-Stays argument s s' e = ground arith

  pub run_retr-Stays :
      (s : Session S.Db) → (run_retr S rand can_open s).working_directory ≡ s.working_directory
  unfolding run_retr data_send_file send_contents data_async_send send_from read_block data_close
  run_retr-Stays s = ground arith

  pub parse_retr_argument-Stays :
      (argument : Bytes) (s : Session S.Db) → Stays s (parse_retr_argument S rand argument s)
  unfolding parse_retr_argument
  parse_retr_argument-Stays argument s s' e = ground arith
