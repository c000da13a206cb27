-- ===== src/Session/Navigation.antt =====
-- src/ftp/base_session.cpp: the branches of `handle_command` for the login and for the virtual file
-- system, and `parse_RETR_argument`.
use asio_ftp.Base.{
  ℕ, Bool, true, not, Option, none, some, List, [], ◌∷◌, ◌++◌, Bytes, codes, is_empty, same, length,
  ◌==◌, if◌then◌else◌, Result, returned, thrown, out_of_bounds, ◌>>=◌,
}
use asio_ftp.Helpers.Strings.{string_split, string_starts_with}
use asio_ftp.Helpers.Paths.{slash, is_slash_at, get_basename, get_parent_path}
use asio_ftp.Database.Sqlite.{Sqlite}
use asio_ftp.Database.World.{World}
use asio_ftp.Database.Objects.{get_object, create_object, remove_fs_object}
use asio_ftp.Database.Users.{get_id_by_name, check_password}
use asio_ftp.Session.State.{Session, logged_in, control_send, answer}

-- The directory and the name of an object.
pub record Place : Type 0 where
  pub object_path : Bytes
  pub object_name : Bytes

abbrev pub place : Bytes → Bytes → Place
place path name = record { object_path = path; object_name = name }

-- `string_split(argument, "/").size() == 1`
abbrev pub is_one_name : Bytes → Bool
is_one_name argument = length (string_split argument (slash ∷ [])) == 1

-- MKD and DELE: a name only, or a path that lacks its leading slash.
unfoldable pub make_place : Bytes → Bytes → Place
make_place working_directory argument =
    if is_one_name argument
    then place working_directory argument
    else place (get_parent_path (slash ∷ argument)) (get_basename argument)

-- RMD: an absolute path too.
unfoldable pub remove_place : Bytes → Bytes → Place
remove_place working_directory argument =
    if is_one_name argument
    then place working_directory argument
    else if is_slash_at argument 0
    then place (get_parent_path argument) (get_basename argument)
    else place (get_parent_path (slash ∷ argument)) (get_basename argument)

-- RETR: a name only, an absolute path, or a relative one.
unfoldable pub retrieve_place : Bytes → Bytes → Place
retrieve_place working_directory argument =
    if is_one_name argument
    then place working_directory argument
    else if string_starts_with argument (slash ∷ [])
    then place (get_parent_path argument) (get_basename argument)
    else place (get_parent_path (working_directory ++ argument)) (get_basename argument)

abbrev pub changed : Bytes
changed = codes "250 Changed working directory."

abbrev pub not_found : Bytes
not_found = codes "550 No such file or directory."

abbrev pub no_arguments : Bytes
no_arguments = codes "501 No arguments presented."

-- The new working directory.
abbrev pub entered : Place → Bytes
entered found =
    (if same found.object_path (slash ∷ [])
      then found.object_path
      else found.object_path ++ slash ∷ [])
    ++ found.object_name

-- `path_segments.erase(path_segments.begin())`
abbrev pub without_first : List Bytes → List Bytes
without_first [] = []
without_first (segment ∷ segments) = segments

module _ (S : Sqlite) (rand : ℕ → ℕ) where
  unfoldable pub run_user : Bytes → Session S.Db → Result (Session S.Db)
  run_user argument s =
      if is_empty argument then returned (answer (codes "530 Invalid username.") s) else do
        (uid, w) ← get_id_by_name S argument s.world
        if is_empty uid
            then returned (answer (codes "530 Invalid username.") (record s { world = w }))
            else returned (
                answer (codes "331 Username okay, password needed.")
                  (record s { world = w; userid = uid; username = argument }))

  unfoldable pub run_pass : Bytes → Session S.Db → Result (Session S.Db)
  run_pass argument s =
      if is_empty s.userid then returned (answer (codes "530 User not found.") s) else do
        (right, w) ← check_password S s.userid argument s.world
        if right
            then returned (
                answer (codes "230 Logged in.")
                  (record s { world = w; connection_stage = logged_in }))
            else returned (answer (codes "530 Wrong password.") (record s { world = w }))

  unfoldable pub run_cdup : Session S.Db → Session S.Db
  unfolding get_parent_path
  run_cdup s =
      answer (codes "250 Okay.")
        (record s { working_directory = get_parent_path s.working_directory })

  -- The loop over the segments. `object_path` is the path of the directory that holds `segment`,
  -- which exists. The result is that path and the last segment, or `none` for a missing one.
  unfoldable pub cwd_loop :
      Bytes → Bytes → Bytes → List Bytes → World S.Db → Result (Option Place × World S.Db)
  cwd_loop userid object_path segment [] w = returned (some (place object_path segment), w)
  cwd_loop userid object_path segment (next ∷ segments) w =
      let longer = object_path ++ (slash ∷ segment) in
      do
        (object, w') ← get_object S userid next longer w
        let rest = cwd_loop userid longer next segments w'
        if is_empty object.id then returned (none, w') else rest

  -- The first segment, and the loop behind it.
  unfoldable pub cwd_walk :
      Bytes → Bytes → List Bytes → World S.Db → Result (Option Place × World S.Db)
  unfolding cwd_loop same
  cwd_walk userid object_path [] w = thrown out_of_bounds
  cwd_walk userid object_path (segment ∷ segments) w = do
    (object, w') ← get_object S userid segment object_path w
    if is_empty object.id
        then returned (none, w')
        else cwd_loop userid (if same object_path (slash ∷ []) then [] else object_path) segment
            segments w'

  unfoldable pub cwd_answer : Option Place → Session S.Db → Session S.Db
  cwd_answer none s = answer not_found s
  cwd_answer (some found) s = answer changed (record s { working_directory = entered found })

  -- The walk from the root or from the working directory.
  unfoldable pub cwd_start : Bytes → Session S.Db → Result (Option Place × World S.Db)
  unfolding is_slash_at string_split
  cwd_start argument s =
      let segments = string_split argument (slash ∷ []) in
      if is_slash_at argument 0
      then cwd_walk s.userid (slash ∷ []) (without_first segments) s.world
      else cwd_walk s.userid s.working_directory segments s.world

  unfoldable pub cwd_path : Bytes → Session S.Db → Result (Session S.Db)
  unfolding cwd_answer
  cwd_path argument s = do
    (found, w) ← cwd_start argument s
    returned (cwd_answer found (record s { world = w }))

  unfoldable pub run_cwd : Bytes → Session S.Db → Result (Session S.Db)
  unfolding cwd_path same get_parent_path
  run_cwd argument s =
      if is_empty argument
      then returned (answer no_arguments s)
      else if same argument (codes "..")
      then returned
          (answer changed (record s { working_directory = get_parent_path s.working_directory }))
      else if same argument (slash ∷ [])
      then returned (answer changed (record s { working_directory = slash ∷ [] }))
      else cwd_path argument s

  unfoldable pub run_mkd : Bytes → Session S.Db → Result (Session S.Db)
  unfolding make_place
  run_mkd argument s = if is_empty argument then returned (answer no_arguments s) else do
    let at = make_place s.working_directory argument
    (id, w) ← create_object S rand s.userid at.object_name at.object_path 0 true s.world
    let made = record s { world = w }
    if is_empty id
        then returned (answer (codes "250 Failed.") made)
        else returned (answer (codes "250 Directory created.") made)

  -- RMD and DELE differ in the place only, and answer alike whether or not there was an object.
  unfoldable pub remove_at : Place → Session S.Db → Result (Session S.Db)
  remove_at at s = do
    (removed, w) ← remove_fs_object S s.userid at.object_name at.object_path s.world
    returned (answer (codes "250 Deleted.") (record s { world = w }))

  unfoldable pub run_rmd : Bytes → Session S.Db → Result (Session S.Db)
  unfolding remove_at remove_place
  run_rmd argument s =
      if is_empty argument
      then returned (answer no_arguments s)
      else remove_at (remove_place s.working_directory argument) s

  unfoldable pub run_dele : Bytes → Session S.Db → Result (Session S.Db)
  unfolding remove_at make_place
  run_dele argument s =
      if is_empty argument
      then returned (answer no_arguments s)
      else remove_at (make_place s.working_directory argument) s

  -- The answer is sent, and no further command is waited for.
  unfoldable pub run_size : Bytes → Session S.Db → Result (Session S.Db)
  unfolding get_parent_path get_basename
  run_size argument s = do
    (object, w) ← get_object S s.userid (get_basename argument) (get_parent_path argument) s.world
    let looked = record s { world = w }
    if is_empty object.id
        then returned (control_send (codes "550 File unavailable.") looked)
        else returned (control_send (codes "213 " ++ object.size) looked)

  unfoldable pub parse_retr_argument : Bytes → Session S.Db → Result (Session S.Db)
  unfolding retrieve_place
  parse_retr_argument argument s =
      if is_empty argument
      then returned (answer no_arguments s)
      else if not (is_empty s.sendable_file_id)
      then returned s
      else do
        let at = retrieve_place s.working_directory argument
        (object, w) ← get_object S s.userid at.object_name at.object_path s.world
        let looked = record s { world = w }
        if is_empty object.id
            then returned (control_send (codes "550 File unavailable.") looked)
            else returned (record looked { sendable_file_id = object.id })
