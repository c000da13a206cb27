-- ===== src/Tests/Sessions.antt =====
-- The theorems on a session, tried on the sample session.
use asio_ftp.Base.{
  ◌≡◌, refl, false, none, some, [], ◌∷◌, Bytes, codes, same, returned, c_string, ◌>>=◌, arith,
}
use asio_ftp.Helpers.Paths.{is_slash_at, child_path, get_basename, get_parent_path}
use asio_ftp.Helpers.Paths.Inverse.{IsAbsolute}
use asio_ftp.Helpers.Decimal.{to_string, stoll}
use asio_ftp.Helpers.Uuid.{generate_uuid_string}
use asio_ftp.Database.Schema.{new_row}
use asio_ftp.Database.Sqlite.{run_param_query, collect_rows}
use asio_ftp.Database.Users.{check_password}
use asio_ftp.Database.Objects.{get_object, first_object}
use asio_ftp.Session.Places.{IsName}
use asio_ftp.Database.World.{data_file}
use asio_ftp.Database.Objects.Create.{uuid}
use asio_ftp.Database.Memory.{Memory, memory_sqlite, memory_tables}
use asio_ftp.Database.Memory.Lawful.{memory_sqlite-IsLawful}
use asio_ftp.Database.Memory.Rows.{row_at}
use asio_ftp.Session.State.{Session, unauthenticated, logged_in, answer, control_send}
use asio_ftp.Session.Commands.{Command, find_command}
use asio_ftp.Session.Navigation.{
  no_arguments, parse_retr_argument, changed, run_cwd, run_mkd, run_cdup, run_pass, run_size,
}
use asio_ftp.Session.Transfer.{data_receive_file, data_send_file}
use asio_ftp.Session.Handler.{handle_command, run_found, dispatch, guard_login, run_logged_in}
use asio_ftp.Session.Login.{Guarded, handle_command-Guarded, handle_command-user}
use asio_ftp.Session.Reads.{reads, handle_command-OneRead, handle_command-size}
use asio_ftp.Session.Upload.{receive_blocks, Stored}
use asio_ftp.Session.Upload.Existing.{upload_existing}
use asio_ftp.Session.Upload.Fresh.{upload_new}
use asio_ftp.Session.Download.{sent_data, send_blocks, download}
use asio_ftp.Session.Walk.{run_cwd-name, mkd_cwd_cdup}
use asio_ftp.Session.Insecure.{run_retr, run_stor, store_path}
use asio_ftp.Session.Stuck.{handle_command-retr, run_stor-missing}
use asio_ftp.Tests.{plan, bob, db, world, rand, can_open, session, db-HasIds, db-IsFresh}

pub docs_IsName : IsName (codes "docs")
docs_IsName = (((λ e. cc e), ((λ e. cc e), ((λ e. cc e), ((λ e. cc e), tt)))), refl)

new_IsName : IsName (codes "new")
new_IsName = (((λ e. cc e), ((λ e. cc e), ((λ e. cc e), tt))), refl)

no_file : (world.files (data_file (uuid memory_sqlite rand world))) ≡ none
unfolding same generate_uuid_string
no_file = refl

abbrev pub guest : Session Memory
guest = session unauthenticated

abbrev pub ann_session : Session Memory
ann_session = session logged_in

-- PASS with the right password, and PWD.
abbrev admitted : Session Memory
admitted = answer (codes "230 Logged in.") (record guest { connection_stage = logged_in })

abbrev told : Session Memory
told = answer (codes "257 \"/\"") ann_session

abbrev size_told : Session Memory
size_told = control_send (codes "213 5") ann_session

pass_run :
    handle_command memory_sqlite rand can_open (codes "PASS") (codes "secret") guest
    ≡ returned admitted
unfolding handle_command run_found dispatch find_command same run_pass check_password
    run_param_query collect_rows c_string
pass_run = refl

pwd_run : handle_command memory_sqlite rand can_open (codes "PWD") [] ann_session ≡ returned told
unfolding handle_command run_found dispatch find_command same guard_login run_logged_in
pwd_run = refl

cwd_run :
    handle_command memory_sqlite rand can_open (codes "CWD") (codes "docs") ann_session
    ≡ returned (answer changed (record ann_session { working_directory = codes "/docs" }))
unfolding handle_command run_found dispatch find_command same guard_login run_logged_in child_path
cwd_run =
    run_cwd-name memory_sqlite memory_tables memory_sqlite-IsLawful rand (codes "docs") ann_session
      docs_IsName refl db-HasIds

size_run :
    handle_command memory_sqlite rand can_open (codes "SIZE") (codes "/docs/plan") ann_session
    ≡ returned size_told
unfolding handle_command run_found dispatch find_command same guard_login run_logged_in run_size
    get_object run_param_query collect_rows c_string get_parent_path get_basename first_object
size_run = refl

pub root_IsAbsolute : IsAbsolute (codes "/")
unfolding is_slash_at
root_IsAbsolute = refl

handle_command-Guarded_example :
    Guarded memory_sqlite memory_tables memory_sqlite-IsLawful rand can_open
      (find_command (codes "PASS"))
      (codes "secret")
      guest
      admitted
handle_command-Guarded_example =
    handle_command-Guarded memory_sqlite memory_tables memory_sqlite-IsLawful rand can_open
      (codes "PASS") (codes "secret") guest admitted refl pass_run

handle_command-user_example :
    (s' : Session Memory) × (handle_command memory_sqlite rand can_open
        (codes "USER")
        (codes "bob")
        ann_session
      ≡ returned s')
    × (s'.userid ≡ codes "u2")
    × (s'.connection_stage ≡ logged_in)
    × (s'.world ≡ world)
unfolding same c_string
handle_command-user_example =
    handle_command-user memory_sqlite memory_tables memory_sqlite-IsLawful rand can_open
      (codes "bob") ann_session bob refl refl refl

handle_command-OneRead_example : reads told.out ≡ 1
unfolding find_command same
handle_command-OneRead_example =
    handle_command-OneRead memory_sqlite rand can_open (codes "PWD") [] Command.pwd ann_session told
      refl refl refl pwd_run

handle_command-size_example : reads size_told.out ≡ 0
handle_command-size_example =
    handle_command-size memory_sqlite rand can_open (codes "/docs/plan") ann_session size_told refl
      size_run

-- An upload to a new name, one over the file that is there, and a download.
abbrev storing : Bytes → Session Memory
storing path = record ann_session { pending_write_file = path }

abbrev fresh_file : Bytes
fresh_file = data_file (uuid memory_sqlite rand world)

upload_new_example :
    (s' : Session Memory) × (modified : Bytes) × ((data_receive_file memory_sqlite rand can_open
          (storing (codes "/new"))
        >>= receive_blocks memory_sqlite rand can_open (codes "ab" ∷ codes "cd" ∷ []) (codes "e"))
      ≡ returned s')
    × ((s'.world).files fresh_file ≡ some (codes "abcde"))
    × (row_at ((s'.world).db).rows (codes "new") (codes "/")
        ≡ some
            (record (new_row memory_sqlite memory_tables db
              (uuid memory_sqlite rand world)
              (codes "new")
              (codes "/")
              0
              false
              (codes "u1")) { size = to_string 5; modified_time = modified }))
unfolding same get_basename get_parent_path
upload_new_example =
    upload_new memory_sqlite memory_tables memory_sqlite-IsLawful rand can_open
      (storing (codes "/new")) db-HasIds (codes "ab" ∷ codes "cd" ∷ []) (codes "e") refl refl
      db-IsFresh no_file refl

upload_existing_example :
    (s' : Session Memory) × ((data_receive_file memory_sqlite rand can_open
          (storing (codes "/docs/plan"))
        >>= receive_blocks memory_sqlite rand can_open (codes "ab" ∷ []) (codes "c"))
      ≡ returned s')
    × Stored memory_sqlite memory_tables memory_sqlite-IsLawful rand can_open
        (data_file (codes "B2"))
        (codes "abc")
        8
        plan
        (storing (codes "/docs/plan"))
        s'
unfolding same get_basename get_parent_path c_string stoll
upload_existing_example =
    upload_existing memory_sqlite memory_tables memory_sqlite-IsLawful rand can_open
      (codes "ab" ∷ []) (codes "c") (storing (codes "/docs/plan")) plan 5 db-HasIds refl refl refl
      refl

abbrev retrieving : Session Memory
retrieving = record ann_session { sendable_file_id = codes "B2" }

download_example :
    (sent_data (send_blocks 6 (data_send_file memory_sqlite rand can_open retrieving)).out
      ≡ codes "12345")
    × ((send_blocks 6 (data_send_file memory_sqlite rand can_open retrieving)).send_file_stream
        ≡ none)
unfolding same
download_example =
    download memory_sqlite rand can_open retrieving (codes "12345") 6 refl refl (omega arith)

mkd_cwd_cdup_example :
    (made entered_it : Session Memory) × (run_mkd memory_sqlite rand (codes "new") ann_session
      ≡ returned made)
    × (run_cwd memory_sqlite rand (codes "new") made ≡ returned entered_it)
    × (entered_it.working_directory ≡ child_path (codes "/") (codes "new"))
    × ((run_cdup memory_sqlite rand entered_it).working_directory ≡ codes "/")
unfolding same
mkd_cwd_cdup_example =
    mkd_cwd_cdup memory_sqlite memory_tables memory_sqlite-IsLawful rand (codes "new") ann_session
      new_IsName refl root_IsAbsolute db-HasIds refl refl db-IsFresh

-- The session in which RETR with no argument ends: the file of no object is not there.
abbrev refused : Session Memory
refused = run_retr memory_sqlite rand can_open (answer no_arguments ann_session)

retr_run :
    handle_command memory_sqlite rand can_open (codes "RETR") [] ann_session ≡ returned refused
unfolding handle_command run_found dispatch find_command same guard_login run_logged_in
    parse_retr_argument
retr_run = refl

handle_command-retr_example : reads refused.out ≡ 2
handle_command-retr_example =
    handle_command-retr memory_sqlite rand can_open ann_session refused refl retr_run

run_stor-missing_example :
    run_stor memory_sqlite rand can_open (codes "nowhere/x") ann_session
    ≡ returned (storing (codes "/nowhere/x"))
unfolding same store_path is_slash_at get_parent_path get_basename
run_stor-missing_example =
    run_stor-missing memory_sqlite memory_tables memory_sqlite-IsLawful rand can_open
      (codes "nowhere/x") ann_session db-HasIds refl refl refl refl
