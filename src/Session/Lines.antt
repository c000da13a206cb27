-- ===== src/Session/Lines.antt =====
-- A whole listing, as a client reads it: line by line.
pub mod Split
pub mod Command
use asio_ftp.Base.{
  ℕ, ◌≡◌, ◌≢◌, append-nil, refl, sym, ◌∙◌, ap, Bool, true, false, List, [], ◌∷◌, ◌++◌, map, Bytes,
  codes, is_empty, if◌then◌else◌, All, All-append, append_assoc, Lacks, find, begins_with, take,
  drop, arith, Bool-cases, inl, inr, ltb, length,
}
use asio_ftp.Helpers.Strings.{string_split, string_join}
use asio_ftp.Helpers.Strings.Split.{join-cons}
use asio_ftp.Helpers.Strings.Parts.{split-join}
use asio_ftp.Helpers.Strings.Lacking.{Lacks-of_find, Lacks-string_join, Lacks-take, Lacks-drop}
use asio_ftp.Database.Objects.{FsObject}
use asio_ftp.Session.Listing.{
  byte_at, parse_metadata_time, month_name, month_below_ten, month_from_ten, directory_line,
  directory_lines, special_entry, create_directory_list,
}

-- The line of an entry, up to its line feed: seven fields with a space between them.
abbrev pub entry_line : Bool → Bytes → Bytes → Bytes → Bytes → Bytes
entry_line is_directory owner size time name =
    string_join
      ((if is_directory then codes "drwxrwxrwx" else codes "-rwxrwxrwx")
        ∷ codes "1"
        ∷ owner
        ∷ owner
        ∷ size
        ∷ time
        ∷ name
        ∷ [])
      (codes " ")
    ++ codes "\r"

abbrev pub object_line : Bytes → FsObject → Bytes
object_line owner object =
    entry_line object.is_directory owner object.size (parse_metadata_time object.modified_time)
      object.name

abbrev pub special_line : Bytes → Bytes → Bytes
special_line owner name = entry_line true owner (codes "0") (codes "Jan 1 00:00") name

abbrev pub listed_lines : List FsObject → Bytes → Bool → List Bytes
listed_lines objects owner include_special_entries =
    (if include_special_entries
      then special_line owner (codes ".") ∷ special_line owner (codes "..") ∷ []
      else [])
    ++ map (object_line owner) objects

line_lem :
    (is_directory : Bool) (owner size time name : Bytes)
    → (if is_directory then codes "drwxrwxrwx 1 " else codes "-rwxrwxrwx 1 ")
        ++ (owner
            ++ (codes " "
                ++ (owner
                    ++ (codes " "
                        ++ (size
                            ++ (codes " " ++ (time ++ (codes " " ++ (name ++ codes "\r\n")))))))))
      ≡ entry_line is_directory owner size time name ++ codes "\n"
unfolding string_join
line_lem true owner size time name = simp append_assoc
line_lem false owner size time name = simp append_assoc

directory_line_lem :
    (owner : Bytes) (object : FsObject)
    → directory_line owner object ≡ object_line owner object ++ codes "\n"
unfolding directory_line
directory_line_lem owner object =
    line_lem object.is_directory owner object.size (parse_metadata_time object.modified_time)
      object.name

special_entry_lem :
    (owner name : Bytes) → special_entry owner name ≡ special_line owner name ++ codes "\n"
unfolding special_entry
special_entry_lem owner name = line_lem true owner (codes "0") (codes "Jan 1 00:00") name

-- Lines with a line feed behind each.
abbrev pub ended : List Bytes → Bytes
ended [] = []
ended (line ∷ lines) = (line ++ codes "\n") ++ ended lines

directory_lines_lem :
    (owner : Bytes) (objects : List FsObject) (listed : Bytes)
    → directory_lines owner objects listed ≡ listed ++ ended (map (object_line owner) objects)
unfolding directory_lines
directory_lines_lem owner [] listed = sym (append-nil listed)
directory_lines_lem owner (object ∷ objects) listed =
    directory_lines_lem owner objects (listed ++ directory_line owner object)
    ∙ rw (directory_line_lem owner object) (simp append_assoc)

special_entries_lem :
    (owner : Bytes)
    → special_entry owner (codes ".") ++ special_entry owner (codes "..")
      ≡ (special_line owner (codes ".") ++ codes "\n")
        ++ (special_line owner (codes "..") ++ codes "\n")
special_entries_lem owner =
    rw (special_entry_lem owner (codes "."), special_entry_lem owner (codes "..")) refl

pub create_directory_list_lem :
    (objects : List FsObject) (owner : Bytes) (include_special_entries : Bool)
    → create_directory_list objects owner include_special_entries
      ≡ ended (listed_lines objects owner include_special_entries)
unfolding create_directory_list
create_directory_list_lem objects owner true =
    directory_lines_lem owner objects
      (special_entry owner (codes ".") ++ special_entry owner (codes ".."))
    ∙ ap (λ s. s ++ ended (map (object_line owner) objects)) (special_entries_lem owner)
    ∙ append_assoc (special_line owner (codes ".") ++ codes "\n")
        (special_line owner (codes "..") ++ codes "\n") (ended (map (object_line owner) objects))
create_directory_list_lem objects owner false = directory_lines_lem owner objects []

-- Behind the last line feed there is an empty part.
pub ended_lem : (lines : List Bytes) → ended lines ≡ string_join (lines ++ [] ∷ []) (codes "\n")
unfolding string_join
ended_lem [] = refl
ended_lem (line ∷ lines) =
    append_assoc line (codes "\n") (ended lines)
    ∙ ap (λ s. line ++ (codes "\n" ++ s)) (ended_lem lines)
    ∙ sym (join-cons line (lines ++ [] ∷ []) (codes "\n") (append_ne_nil lines))
  where
    append_ne_nil : (lines : List Bytes) → (lines ++ [] ∷ []) ≢ []
    append_ne_nil [] = λ e. cc e
    append_ne_nil (line ∷ lines) = λ e. cc e
