-- ===== src/Session/Lines/Command.antt =====
-- LIST, from the rows of the table to the lines that a client reads.
use mathlib.Core.List.{Memᴰ}
use asio_ftp.Base.{
  ℕ, ◌≡◌, Bool, true, Option, none, some, List, [], ◌∷◌, ◌++◌, map, Bytes, codes, same,
  if◌then◌else◌, All,
}
use asio_ftp.Database.Sqlite.{Sqlite}
use asio_ftp.Database.Schema.{ObjectRow, Tables}
use asio_ftp.Database.Objects.{FsObject}
use asio_ftp.Database.Objects.Lookup.{object_of_row}
use asio_ftp.Database.Objects.ByPath.{Listings}
use asio_ftp.Session.State.{Session, crlf, receiving, sent, data_sent}
use asio_ftp.Session.Listing.{create_directory_list}
use asio_ftp.Session.Lines.{object_line}
use asio_ftp.Session.Lines.Split.{IsPlain}

-- The row of a user under a name and a path, if there is one.
abbrev pub owned_rows : Bytes → Option ObjectRow → List ObjectRow
owned_rows u none = []
owned_rows u (some r) = if same r.user_id u then r ∷ [] else []

-- Each of the rows has its line among the lines.
abbrev pub AllListed : Bytes → List Bytes → List ObjectRow → Type 0
AllListed owner lines = All (λ r. Memᴰ (object_line owner (object_of_row r)) lines)

module _ {Db : Type 0} where
  -- Whether the entries for the directory and its parent are listed.
  abbrev pub lists_all : Bytes → Session Db → Bool
  lists_all argument s = if same argument (codes "-la") then true else s.pending_directory_list_all

module _ (S : Sqlite) (T : Tables S) where
  open T use {object_at}

  -- The texts of every row hold no line feed.
  abbrev pub AllPlain : S.Db → Type 0
  AllPlain db =
      (n p : Bytes) (r : ObjectRow) → object_at db n p ≡ some r → IsPlain (object_of_row r)

module _ (S : Sqlite) (T : Tables S) (B : Listings S T) where
  open B use {rows_by_path}

  -- The objects of the user in the working directory, in the order of the database.
  abbrev pub listed_objects : Session S.Db → List FsObject
  listed_objects s = map object_of_row (rows_by_path (s.world).db s.userid s.working_directory)

module _ (S : Sqlite) (T : Tables S) (B : Listings S T) (rand : ℕ → ℕ)
    (can_open : Bytes → Bool) where
  open T use {object_at}
  open B use {rows_by_path}

  listing_sent : Bytes → Session S.Db → Session S.Db
  listing_sent argument s =
      let listing =
        create_directory_list (listed_objects S T B s) s.username (lists_all argument s) in
      record s {
        pending_directory_list = s.working_directory;
        pending_directory_list_all = lists_all argument s;
        directory_list = listing;
        out =
            receiving ∷ data_sent listing ∷ sent (codes "150 Opening connection." ++ crlf) ∷ s.out;
      }
