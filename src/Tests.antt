-- ===== src/Tests.antt =====
-- A small database and a session, on which the theorems are tried.
pub mod Texts
pub mod Objects
pub mod Sessions
pub mod Events
pub mod Lists
pub mod Secure
pub mod Settings
pub mod Starts
pub mod Servers
use asio_ftp.Base.{
  ℕ, ◌≡◌, ◌≢◌, refl, Bool, true, false, Option, none, some, List, [], ◌∷◌, Bytes, codes, same,
  is_empty, c_string, All, inl, inr, subst,
}
use asio_ftp.Helpers.Paths.{slash, child_path}
use asio_ftp.Helpers.Uuid.{generate_uuid_string}
use asio_ftp.Database.Schema.{UserRow, ObjectRow, IsFresh}
use asio_ftp.Database.World.{World, Files, data_file}
use asio_ftp.Database.Objects.Lookup.{IsId, HasIds}
use asio_ftp.Database.Objects.Create.{uuid}
use asio_ftp.Database.Objects.Tree.{Rooted, IsTree}
use asio_ftp.Database.Memory.{Memory, clock, memory_sqlite, memory_tables}
use asio_ftp.Database.Memory.Rows.{row_at, row_at-All, row_at-keyed, Unique}
use asio_ftp.Session.State.{plain, Session, Stage, unauthenticated, logged_in}

abbrev pub entry : Bytes → Bytes → Bytes → Bytes → Bool → Bytes → ObjectRow
entry id name path size directory user = record {
  object_id = id;
  name = name;
  path = path;
  size = size;
  modified_time = clock;
  is_directory = directory;
  user_id = user;
}

-- Ann has a directory with a file, and beside it another one whose name only begins alike, with a
-- file. Bob has a file.
abbrev pub docs : ObjectRow
docs = entry (codes "A1") (codes "docs") (codes "/") (codes "0") true (codes "u1")

abbrev pub plan : ObjectRow
plan = entry (codes "B2") (codes "plan") (codes "/docs") (codes "5") false (codes "u1")

abbrev pub docs_old : ObjectRow
docs_old = entry (codes "C3") (codes "docs-old") (codes "/") (codes "0") true (codes "u1")

abbrev pub kept : ObjectRow
kept = entry (codes "D4") (codes "kept") (codes "/docs-old") (codes "3") false (codes "u1")

abbrev pub theirs : ObjectRow
theirs = entry (codes "E5") (codes "theirs") (codes "/") (codes "1") false (codes "u2")

abbrev pub rows : List ObjectRow
rows = docs ∷ plan ∷ docs_old ∷ kept ∷ theirs ∷ []

pub rows-Unique : Unique rows
unfolding same
rows-Unique = (
  ((refl, refl), ((refl, refl), ((refl, refl), ((refl, refl), tt)))),
  (
    ((refl, refl), ((refl, refl), ((refl, refl), tt))),
    (((refl, refl), ((refl, refl), tt)), (((refl, refl), tt), (tt, tt))),
  ),
)

abbrev pub ann : UserRow
ann = record { user_id = codes "u1"; name = codes "ann"; password = codes "secret" }

abbrev pub bob : UserRow
bob = record { user_id = codes "u2"; name = codes "bob"; password = codes "other" }

abbrev pub db : Memory
db = record { rows = rows; unique = rows-Unique; users = ann ∷ bob ∷ [] }

abbrev pub files : Files
files path = if_data (same path (codes "data/B2"))
  where
    if_data : Bool → Option Bytes
    if_data true = some (codes "12345")
    if_data false = none

abbrev pub world : World Memory
world = record { db = db; files = files; draws = 0 }

abbrev pub rand : ℕ → ℕ
rand k = k

abbrev pub can_open : Bytes → Bool
can_open path = true

-- A session of Ann's at the root, logged in or not.
abbrev pub session : Stage → Session Memory
session stage = record {
  kind = plain;
  world = world;
  out = [];
  address = codes "127.0.0.1";
  port = 50021;
  data_socket_open = true;
  connection_stage = stage;
  pending_directory_list = [];
  pending_directory_list_all = false;
  pending_write_file = [];
  sendable_file_id = [];
  userid = codes "u1";
  username = codes "ann";
  working_directory = codes "/";
  directory_list = [];
  receive_file_name = [];
  receive_file_path = [];
  received_file_size = 0;
  receive_file_stream = none;
  send_file_stream = none;
}

pub db-HasIds : HasIds memory_sqlite memory_tables db
unfolding c_string
db-HasIds n p r e = row_at-All (λ x. IsId x.object_id) rows n p r each e
  where
    each : All (λ x. IsId x.object_id) rows
    each = ((refl, refl), ((refl, refl), ((refl, refl), ((refl, refl), ((refl, refl), tt)))))

pub db-IsFresh : IsFresh memory_sqlite memory_tables db (uuid memory_sqlite rand world)
unfolding generate_uuid_string
db-IsFresh n p r e =
    row_at-All (λ x. x.object_id ≢ uuid memory_sqlite rand world) rows n p r
      ((λ q. cc q), ((λ q. cc q), ((λ q. cc q), ((λ q. cc q), ((λ q. cc q), tt))))) e

-- Where a row stands.
in_docs : Rooted (row_at rows) (codes "u1") (codes "/docs")
unfolding same child_path
in_docs = inr (record { d = docs; there = refl; mine = refl; directory = refl; made_of = refl })

in_docs_old : Rooted (row_at rows) (codes "u1") (codes "/docs-old")
unfolding same child_path
in_docs_old =
    inr (record { d = docs_old; there = refl; mine = refl; directory = refl; made_of = refl })

pub db-IsTree : IsTree (row_at rows) (codes "u1")
db-IsTree n p r e mine = subst (Rooted (row_at rows) (codes "u1")) (row_at-keyed rows n p r e).1 (
    row_at-All (λ x. Rooted (row_at rows) (codes "u1") x.path) rows n p r
      (inl refl, (in_docs, (inl refl, (in_docs_old, (inl refl, tt))))) e)
