-- ===== src/Session/Listing.antt =====
-- src/ftp/base_session.cpp: `create_directory_list` and `parse_metadata_time`.
use asio_ftp.Base.{
  ℕ, Bool, none, some, List, [], ◌∷◌, ◌++◌, Bytes, codes, ltb, ◌==◌, if◌then◌else◌, length, take,
  drop, get_elem?,
}
use asio_ftp.Database.Objects.{FsObject}

-- `time_str[i]`, for an index that the length check allows.
abbrev pub byte_at : Bytes → ℕ → ℕ
byte_at s i = elim (get_elem? s i) [ none ↦ 0 | some c ↦ c ]

-- The inner `switch` for the months 01 to 09, and the one for 10 to 12.
unfoldable pub month_below_ten : ℕ → Bytes
month_below_ten c =
    if c == b'1'
    then codes "Jan "
    else if c == b'2'
    then codes "Feb "
    else if c == b'3'
    then codes "Mar "
    else if c == b'4'
    then codes "Apr "
    else if c == b'5'
    then codes "May "
    else if c == b'6'
    then codes "Jun "
    else if c == b'7'
    then codes "July "
    else if c == b'8'
    then codes "Aug "
    else if c == b'9'
    then codes "Sep "
    else []

unfoldable pub month_from_ten : ℕ → Bytes
month_from_ten c =
    if c == b'0'
    then codes "Oct "
    else if c == b'1'
    then codes "Nov "
    else if c == b'2'
    then codes "Dec "
    else []

unfoldable pub month_name : ℕ → ℕ → Bytes
unfolding month_below_ten month_from_ten
month_name tens units =
    if tens == b'0'
    then month_below_ten units
    else if tens == b'1'
    then month_from_ten units
    else []

-- 2025-08-28 05:12:43 becomes Aug 28 05:12; a shorter text becomes the empty one.
unfoldable pub parse_metadata_time : Bytes → Bytes
unfolding month_name
parse_metadata_time time =
    if ltb (length time) 19
    then []
    else month_name (byte_at time 5) (byte_at time 6)
      ++ (take 2 (drop 8 time) ++ (codes " " ++ take 5 (drop 11 time)))

-- The text that stands for an object.
unfoldable pub directory_line : Bytes → FsObject → Bytes
unfolding parse_metadata_time
directory_line owner object =
    (if object.is_directory then codes "drwxrwxrwx 1 " else codes "-rwxrwxrwx 1 ")
    ++ (owner
        ++ (codes " "
            ++ (owner
                ++ (codes " "
                    ++ (object.size
                        ++ (codes " "
                            ++ (parse_metadata_time object.modified_time
                                ++ (codes " " ++ (object.name ++ codes "\r\n")))))))))

unfoldable pub directory_lines : Bytes → List FsObject → Bytes → Bytes
unfolding directory_line
directory_lines owner [] listed = listed
directory_lines owner (object ∷ objects) listed =
    directory_lines owner objects (listed ++ directory_line owner object)

-- The entry for the directory itself, or for its parent.
unfoldable pub special_entry : Bytes → Bytes → Bytes
special_entry owner name =
    codes "drwxrwxrwx 1 "
    ++ (owner ++ (codes " " ++ (owner ++ (codes " 0 Jan 1 00:00 " ++ (name ++ codes "\r\n")))))

unfoldable pub create_directory_list : List FsObject → Bytes → Bool → Bytes
unfolding directory_lines special_entry
create_directory_list objects owner include_special_entries = directory_lines owner objects (
    if include_special_entries
    then special_entry owner (codes ".") ++ special_entry owner (codes "..")
    else [])
