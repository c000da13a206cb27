-- ===== src/Session/Directory.antt =====
-- The working directory of a session is an absolute path after every command.
use asio_ftp.Base.{
  ℕ, ◌≡◌, refl, sym, subst, Bool, Option, none, some, List, [], ◌∷◌, ◌++◌, Bytes, is_empty, same,
  same→≡, returned, arith, if◌then◌else◌, ◌⊎◌, inl, inr, Bool-cases, Option-cases, ap, ◌∙◌, Result,
  >>=-returned,
}
use asio_ftp.Helpers.Paths.{slash, is_slash_at}
use asio_ftp.Helpers.Paths.Inverse.{IsAbsolute}
use asio_ftp.Helpers.Paths.Parents.{get_parent_path-IsAbsolute}
use asio_ftp.Database.Sqlite.{Sqlite}
use asio_ftp.Database.Objects.{get_object}
use asio_ftp.Helpers.Strings.{string_split}
use asio_ftp.Database.World.{World}
use asio_ftp.Session.State.{Session, Stage, unauthenticated, logged_in}
use asio_ftp.Session.Commands.{Command, find_command}
use asio_ftp.Session.Navigation.{
  Place, entered, without_first, run_user, run_pass, run_cdup, cwd_loop, cwd_walk, cwd_answer,
  cwd_start, cwd_path, run_cwd, run_mkd, remove_at, run_rmd, run_dele, run_size,
  parse_retr_argument,
}
use asio_ftp.Session.Insecure.{run_pasv, run_retr}
use asio_ftp.Session.Handler.{
  run_opts, run_logged_in, guard_login, dispatch, run_found, handle_command,
}
use asio_ftp.Session.Stays.{
  run_list-Stays, run_stor-Stays, run_retr-Stays, parse_retr_argument-Stays,
}

-- The path of a directory, or the empty text that stands for the root inside the loop of CWD.
abbrev IsPrefix : Bytes → Type 0
IsPrefix path = (path ≡ []) ⊎ IsAbsolute path

append-IsAbsolute : (p q : Bytes) → IsAbsolute p → IsAbsolute (p ++ q)
unfolding is_slash_at
append-IsAbsolute [] q h = absurd (cc h)
append-IsAbsolute (c ∷ p) q h = h

longer-IsAbsolute : (p q : Bytes) → IsPrefix p → IsAbsolute (p ++ slash ∷ q)
unfolding is_slash_at
longer-IsAbsolute p q (inl empty) = rw empty refl
longer-IsAbsolute p q (inr h) = append-IsAbsolute p (slash ∷ q) h

root-IsAbsolute : IsAbsolute (slash ∷ [])
unfolding is_slash_at
root-IsAbsolute = refl

entered-IsAbsolute : (at : Place) → IsPrefix at.object_path → IsAbsolute (entered at)
entered-IsAbsolute at h = elim (Bool-cases (same at.object_path (slash ∷ []))) [
  | inl root ↦ rw root (
      append-IsAbsolute at.object_path at.object_name
        (subst IsAbsolute (sym (same→≡ at.object_path (slash ∷ []) root)) root-IsAbsolute))
  | inr below ↦ rw below (
      append-IsAbsolute (at.object_path ++ slash ∷ []) at.object_name
        (longer-IsAbsolute at.object_path [] h))
]

module _ (S : Sqlite) (rand : ℕ → ℕ) (can_open : Bytes → Bool) where
  -- What a walk found, if it returned, lies under such a path.
  abbrev FindsPrefix : Result (Option Place × World S.Db) → Type 0
  FindsPrefix m =
      (at : Place) (w : World S.Db) → m ≡ returned (some at, w) → IsPrefix at.object_path

  cwd_loop-FindsPrefix :
      (userid object_path segment : Bytes) (segments : List Bytes) (w : World S.Db)
      → IsPrefix object_path
      → FindsPrefix (cwd_loop S rand userid object_path segment segments w)
  unfolding cwd_loop
  cwd_loop-FindsPrefix userid object_path segment [] w h at w' e =
      let found : at.object_path ≡ object_path = ground arith in subst IsPrefix (sym found) h
  cwd_loop-FindsPrefix userid object_path segment (next ∷ segments) w h at w' e =
      let ((object, w₁), e₁, e₂) =
        >>=-returned (get_object S userid next (object_path ++ slash ∷ segment) w) _ e in
      ground (
        arith,
        e₂,
        cwd_loop-FindsPrefix userid (object_path ++ slash ∷ segment) next segments w₁
            (inr (longer-IsAbsolute object_path segment h)) at w',
      )

  cwd_walk-FindsPrefix :
      (userid object_path : Bytes) (segments : List Bytes) (w : World S.Db)
      → IsAbsolute object_path
      → FindsPrefix (cwd_walk S rand userid object_path segments w)
  unfolding cwd_walk
  cwd_walk-FindsPrefix userid object_path [] w h at w' e = absurd (cc e)
  cwd_walk-FindsPrefix userid object_path (segment ∷ segments) w h at w' e =
      let start = if same object_path (slash ∷ []) then [] else object_path in
      let prefix : IsPrefix start = ground (arith, h) in
      let ((object, w₁), e₁, e₂) = >>=-returned (get_object S userid segment object_path w) _ e in
      ground (arith, e₂, cwd_loop-FindsPrefix userid start segment segments w₁ prefix at w')

  -- The working directory is absolute in a state that a computation returns.
  abbrev KeepsAbsolute : Result (Session S.Db) → Type 0
  KeepsAbsolute m = (s' : Session S.Db) → m ≡ returned s' → IsAbsolute s'.working_directory

  cwd_start-FindsPrefix :
      (argument : Bytes) (s : Session S.Db)
      → IsAbsolute s.working_directory
      → FindsPrefix (cwd_start S rand argument s)
  unfolding cwd_start
  cwd_start-FindsPrefix argument s h at w e = elim (Bool-cases (is_slash_at argument 0)) [
    | inl rooted ↦
        cwd_walk-FindsPrefix s.userid (slash ∷ [])
          (without_first (string_split argument (slash ∷ []))) s.world root-IsAbsolute at w
          (ground arith)
    | inr relative ↦
        cwd_walk-FindsPrefix s.userid s.working_directory (string_split argument (slash ∷ []))
          s.world h at w (ground arith)
  ]

  cwd_answer-IsAbsolute :
      (found : Option Place) (s : Session S.Db)
      → IsAbsolute s.working_directory
      → ((at : Place) → found ≡ some at → IsPrefix at.object_path)
      → IsAbsolute (cwd_answer S rand found s).working_directory
  unfolding cwd_answer
  cwd_answer-IsAbsolute none s h k = h
  cwd_answer-IsAbsolute (some at) s h k = entered-IsAbsolute at (k at refl)

  cwd_path-KeepsAbsolute :
      (argument : Bytes) (s : Session S.Db)
      → IsAbsolute s.working_directory
      → KeepsAbsolute (cwd_path S rand argument s)
  unfolding cwd_path
  cwd_path-KeepsAbsolute argument s h s' e =
      let ((found, w), e₁, e₂) = >>=-returned (cwd_start S rand argument s) _ e in
      let same_state : s' ≡ cwd_answer S rand found (record s { world = w }) = cc e₂ in
      subst (λ (x : Session S.Db). IsAbsolute x.working_directory) (sym same_state)
        (cwd_answer-IsAbsolute found (record s { world = w }) h
          (λ at f. cwd_start-FindsPrefix argument s h at w (cc (e₁, f))))

  run_cwd-KeepsAbsolute :
      (argument : Bytes) (s : Session S.Db)
      → IsAbsolute s.working_directory
      → KeepsAbsolute (run_cwd S rand argument s)
  unfolding run_cwd
  run_cwd-KeepsAbsolute argument s h s' e = ground (
    arith,
    root-IsAbsolute,
    get_parent_path-IsAbsolute s.working_directory,
    cwd_path-KeepsAbsolute argument s h s',
  )

  run_logged_in-KeepsAbsolute :
      (c : Command) (argument : Bytes) (s : Session S.Db)
      → IsAbsolute s.working_directory
      → KeepsAbsolute (run_logged_in S rand can_open c argument s)
  unfolding run_logged_in run_pasv run_cdup run_opts run_mkd run_rmd run_dele remove_at run_size
  run_logged_in-KeepsAbsolute Command.list argument s h =
      λ s' e. subst IsAbsolute (sym (run_list-Stays S rand can_open argument s s' e)) h
  run_logged_in-KeepsAbsolute Command.stor argument s h =
      λ s' e. subst IsAbsolute (sym (run_stor-Stays S rand can_open argument s s' e)) h
  run_logged_in-KeepsAbsolute Command.retr argument s h = λ s' e.
      let (parsed, e₁, e₂) = >>=-returned (parse_retr_argument S rand argument s) _ e in
      let at_end : run_retr S rand can_open parsed ≡ s' = cc e₂ in
      subst IsAbsolute
        (sym (
          ap (λ (x : Session S.Db). x.working_directory) (sym at_end)
          ∙ run_retr-Stays S rand can_open parsed
          ∙ parse_retr_argument-Stays S rand can_open argument s parsed e₁))
        h
  run_logged_in-KeepsAbsolute Command.cwd argument s h = run_cwd-KeepsAbsolute argument s h
  run_logged_in-KeepsAbsolute Command.cdup argument s h =
      λ s' e. ground (arith, get_parent_path-IsAbsolute s.working_directory)
  run_logged_in-KeepsAbsolute c argument s h = λ s' e. ground (arith, h)

  guarded :
      (stage : Stage) (c : Command) (argument : Bytes) (s : Session S.Db)
      → IsAbsolute s.working_directory
      → KeepsAbsolute (guard_login S rand can_open stage c argument s)
  unfolding guard_login
  guarded unauthenticated c argument s h = λ s' e. ground (arith, h)
  guarded logged_in c argument s h = run_logged_in-KeepsAbsolute c argument s h

  dispatch-KeepsAbsolute :
      (c : Command) (argument : Bytes) (s : Session S.Db)
      → IsAbsolute s.working_directory
      → KeepsAbsolute (dispatch S rand can_open c argument s)
  unfolding dispatch run_user run_pass
  dispatch-KeepsAbsolute Command.user argument s h = λ s' e. ground (arith, h)
  dispatch-KeepsAbsolute Command.pass argument s h = λ s' e. ground (arith, h)
  dispatch-KeepsAbsolute Command.syst argument s h = λ s' e. ground (arith, h)
  dispatch-KeepsAbsolute Command.quit argument s h = λ s' e. ground (arith, h)
  dispatch-KeepsAbsolute c argument s h = guarded s.connection_stage c argument s h

  -- After every command that returns, the working directory is absolute if it was so before.
  pub handle_command-IsAbsolute :
      (command argument : Bytes) (s s' : Session S.Db)
      → IsAbsolute s.working_directory
      → handle_command S rand can_open command argument s ≡ returned s'
      → IsAbsolute s'.working_directory
  unfolding handle_command run_found
  handle_command-IsAbsolute command argument s s' h = elim (Bool-cases (is_empty command)) [
    | inl empty ↦ rw empty (λ e. ground (arith, h))
    | inr named ↦ elim (Option-cases (find_command command)) [
      | inl unknown ↦ rw (named, unknown) (λ e. ground (arith, h))
      | inr (c, known) ↦ rw (named, known) (dispatch-KeepsAbsolute c argument s h s')
    ]
  ]
