-- ===== src/Session/Lines/Split.antt =====
-- A listing is split at its line feeds into the lines of its entries.
use asio_ftp.Base.{
  ℕ, ◌≡◌, refl, sym, ◌∙◌, ap, Bool, true, false, List, [], ◌∷◌, ◌++◌, map, Bytes, codes, is_empty,
  All, All-append, Lacks, find, begins_with, take, drop, arith, Bool-cases, inl, inr, ltb, length,
}
use asio_ftp.Helpers.Strings.{string_split, string_join}
use asio_ftp.Helpers.Strings.Parts.{split-join}
use asio_ftp.Helpers.Strings.Lacking.{Lacks-of_find, Lacks-string_join, Lacks-take, Lacks-drop}
use asio_ftp.Database.Objects.{FsObject}
use asio_ftp.Session.Listing.{
  byte_at, parse_metadata_time, month_name, month_below_ten, month_from_ten, create_directory_list,
}
use asio_ftp.Session.Lines.{
  entry_line, object_line, special_line, listed_lines, ended, ended_lem, create_directory_list_lem,
}

month_name-Lacks : (tens units : ℕ) → Lacks b'\n' (month_name tens units)
unfolding month_name month_below_ten month_from_ten find begins_with
month_name-Lacks tens units = Lacks-of_find _ _ (ground arith)

-- The texts of an object hold no line feed.
pub record IsPlain (object : FsObject) : Type 0 where
  pub size : Lacks b'\n' object.size
  pub time : Lacks b'\n' object.modified_time
  pub name : Lacks b'\n' object.name

parse_metadata_time-Lacks :
    (time : Bytes) → Lacks b'\n' time → Lacks b'\n' (parse_metadata_time time)
unfolding parse_metadata_time
parse_metadata_time-Lacks time h = elim (Bool-cases (ltb (length time) 19)) [
  | inl short ↦ rw short tt
  | inr long ↦ rw long (
      All-append _ (month_name (byte_at time 5) (byte_at time 6)) _
        (month_name-Lacks (byte_at time 5) (byte_at time 6))
        (All-append _ (take 2 (drop 8 time)) _
          (Lacks-take b'\n' 2 (drop 8 time) (Lacks-drop b'\n' 8 time h))
          ((λ e. cc e), Lacks-take b'\n' 5 (drop 11 time) (Lacks-drop b'\n' 11 time h))))
]

entry_line-Lacks :
    (is_directory : Bool) (owner size time name : Bytes)
    → Lacks b'\n' owner
    → Lacks b'\n' size
    → Lacks b'\n' time
    → Lacks b'\n' name
    → Lacks b'\n' (entry_line is_directory owner size time name)
unfolding find begins_with
entry_line-Lacks is_directory owner size time name o s t n =
    All-append _ (string_join _ (codes " ")) (codes "\r")
      (Lacks-string_join b'\n' _ (codes " ")
        (Lacks-of_find _ _ (ground arith), (((λ e. cc e), tt), (o, (o, (s, (t, (n, tt)))))))
        ((λ e. cc e), tt))
      ((λ e. cc e), tt)

object_lines-Lacks :
    (owner : Bytes) (objects : List FsObject)
    → Lacks b'\n' owner
    → All IsPlain objects
    → All (Lacks b'\n') (map (object_line owner) objects)
object_lines-Lacks owner [] o h = tt
object_lines-Lacks owner (object ∷ objects) o h = (
  entry_line-Lacks object.is_directory owner object.size (parse_metadata_time object.modified_time)
      object.name o (h.0).size (parse_metadata_time-Lacks object.modified_time (h.0).time)
      (h.0).name,
  object_lines-Lacks owner objects o h.1,
)

special_line-Lacks :
    (owner name : Bytes)
    → Lacks b'\n' owner
    → Lacks b'\n' name
    → Lacks b'\n' (special_line owner name)
unfolding find begins_with
special_line-Lacks owner name o n =
    entry_line-Lacks true owner (codes "0") (codes "Jan 1 00:00") name o
      (Lacks-of_find b'\n' (codes "0") refl) (Lacks-of_find b'\n' (codes "Jan 1 00:00") refl) n

listed_lines-Lacks :
    (objects : List FsObject) (owner : Bytes) (include_special_entries : Bool)
    → Lacks b'\n' owner
    → All IsPlain objects
    → All (Lacks b'\n') (listed_lines objects owner include_special_entries)
unfolding find begins_with
listed_lines-Lacks objects owner true o h = (
  special_line-Lacks owner (codes ".") o (Lacks-of_find b'\n' (codes ".") refl),
  (
    special_line-Lacks owner (codes "..") o (Lacks-of_find b'\n' (codes "..") refl),
    object_lines-Lacks owner objects o h,
  ),
)
listed_lines-Lacks objects owner false o h = object_lines-Lacks owner objects o h

ended-filled : (line : Bytes) (lines : List Bytes) → is_empty (ended (line ∷ lines)) ≡ false
ended-filled [] lines = refl
ended-filled (c ∷ line) lines = refl

-- What a text with a line feed behind each line is split into: of no line nothing, and otherwise the
-- lines and the empty text behind the last line feed.
abbrev pub parts_of : List Bytes → List Bytes
parts_of [] = []
parts_of (line ∷ lines) = (line ∷ lines) ++ [] ∷ []

split-ended :
    (lines : List Bytes)
    → All (Lacks b'\n') lines
    → string_split (ended lines) (codes "\n") ≡ parts_of lines
unfolding string_split
split-ended [] h = refl
split-ended (line ∷ lines) h =
    let joined = ended_lem (line ∷ lines) in
    ap (λ s. string_split s (codes "\n")) joined
    ∙ split-join b'\n' line (lines ++ [] ∷ [])
        (h.0, All-append (Lacks b'\n') lines ([] ∷ []) h.1 (tt, tt))
        (ap is_empty (sym joined) ∙ ended-filled line lines)

-- Where the name of the user and the texts of the objects hold no line feed, a listing is split at its
-- line feeds into one line per entry, in the order of the objects and behind the two special entries
-- where they are asked for, with the empty text behind the last if there is an entry. A line is seven
-- fields with a space between them, and a carriage return.
pub create_directory_list-lines :
    (objects : List FsObject) (owner : Bytes) (include_special_entries : Bool)
    → Lacks b'\n' owner
    → All IsPlain objects
    → string_split (create_directory_list objects owner include_special_entries) (codes "\n")
      ≡ parts_of (listed_lines objects owner include_special_entries)
create_directory_list-lines objects owner include_special_entries o h =
    ap (λ s. string_split s (codes "\n"))
      (create_directory_list_lem objects owner include_special_entries)
    ∙ split-ended (listed_lines objects owner include_special_entries)
        (listed_lines-Lacks objects owner include_special_entries o h)
