-- ===== src/Tests/Texts.antt =====
-- The theorems on texts, tried.
use asio_ftp.Base.{
  true, false, ℕ, ◌+◌, ◌*◌, ◌<◌, ◌≡◌, refl, [], ◌∷◌, ◌++◌, codes, same, returned, Lacks, arith,
}
use asio_ftp.Helpers.Strings.{string_split, string_join, string_to_uppercase}
use asio_ftp.Helpers.Paths.{slash, is_slash_at, get_basename, get_parent_path, child_path}
use asio_ftp.Helpers.Paths.Inverse.{parent_basename-child}
use asio_ftp.Helpers.Strings.{string_replace}
use asio_ftp.Helpers.Strings.Split.{replace-join-split}
use asio_ftp.Helpers.Decimal.{to_string}
use asio_ftp.Session.Handler.{parse_buffer}
use asio_ftp.Session.Messages.{parse_buffer-argument, pasv_response-port}
use asio_ftp.Session.Insecure.{pasv_response}
use asio_ftp.Session.Navigation.{place, make_place, remove_place, retrieve_place}
use asio_ftp.Session.Places.{absolute_place, relative_place}

docs_IsAbsolute : is_slash_at (codes "/docs") 0 ≡ true
unfolding is_slash_at
docs_IsAbsolute = refl

below_root : same (codes "/docs") (slash ∷ []) ≡ false
unfolding same
below_root = refl

plan_Lacks : Lacks slash (codes "plan")
plan_Lacks = ((λ e. cc e), ((λ e. cc e), ((λ e. cc e), ((λ e. cc e), tt))))

docs_Lacks : Lacks slash (codes "docs")
docs_Lacks = ((λ e. cc e), ((λ e. cc e), ((λ e. cc e), ((λ e. cc e), tt))))

cwd_Lacks : Lacks b' ' (codes "cwd")
cwd_Lacks = ((λ e. cc e), ((λ e. cc e), ((λ e. cc e), tt)))

replace-join-split_example :
    string_replace (codes "127.0.0.1") (codes ".") (codes ",")
    ≡ string_join (string_split (codes "127.0.0.1") (codes ".")) (codes ",")
replace-join-split_example = replace-join-split (codes "127.0.0.1") (codes ".") (codes ",")

parent_basename-child_example :
    (get_parent_path (child_path (codes "/docs") (codes "plan")) ≡ codes "/docs")
    × (get_basename (child_path (codes "/docs") (codes "plan")) ≡ codes "plan")
parent_basename-child_example =
    parent_basename-child (codes "/docs") (codes "plan") docs_IsAbsolute plan_Lacks

parse_buffer-argument_example :
    parse_buffer (codes "cwd my docs\r\n") 13
    ≡ returned (record { command = string_to_uppercase (codes "cwd"); argument = codes "my docs" })
parse_buffer-argument_example =
    parse_buffer-argument (codes "cwd") (codes "my docs") (codes "\r\n") cwd_Lacks

pasv_response-port_example :
    (high low : ℕ) × (high < 256)
    × (low < 256)
    × (256 * high + low ≡ 50021)
    × (pasv_response (codes "127.0.0.1") 50021
        ≡ codes "227 Entering Passive Mode ("
          ++ (string_join (string_split (codes "127.0.0.1") (codes ".")) (codes ",")
              ++ (codes "," ++ (to_string high ++ (codes "," ++ (to_string low ++ codes ")"))))))
pasv_response-port_example = pasv_response-port (codes "127.0.0.1") 50021 (omega arith)

absolute_place_example :
    (remove_place (codes "/") (child_path (codes "/docs") (codes "plan"))
      ≡ place (codes "/docs") (codes "plan"))
    × (make_place (codes "/") (child_path (codes "/docs") (codes "plan"))
        ≡ place (codes "//docs") (codes "plan"))
absolute_place_example =
    absolute_place (codes "/") (codes "/docs") (codes "plan") docs_IsAbsolute below_root plan_Lacks

relative_place_example :
    retrieve_place (codes "/docs") (codes "docs/plan") ≡ place (codes "/docsdocs") (codes "plan")
relative_place_example =
    relative_place (codes "/docs") (codes "docs") (codes "plan") docs_IsAbsolute docs_Lacks refl
      plan_Lacks
