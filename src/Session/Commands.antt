-- ===== src/Session/Commands.antt =====
-- src/ftp/constants.hpp: the supported commands.
use asio_ftp.Base.{Option, none, some, List, [], ◌∷◌, Bytes, codes, same, if◌then◌else◌}

pub data Command : Type 0 where
  user pass syst quit pwd type pasv list feat cdup cwd mkd rmd dele stor retr size pbsz prot opts :
      Command

-- Each command with its name, in the order of `FTP_COMMANDS`.
abbrev pub ftp_commands : List (Bytes × Command)
ftp_commands =
    (codes "USER", user)
    ∷ (codes "PASS", pass)
    ∷ (codes "SYST", syst)
    ∷ (codes "QUIT", quit)
    ∷ (codes "PWD", pwd)
    ∷ (codes "TYPE", type)
    ∷ (codes "PASV", pasv)
    ∷ (codes "LIST", list)
    ∷ (codes "FEAT", feat)
    ∷ (codes "CDUP", cdup)
    ∷ (codes "CWD", cwd)
    ∷ (codes "MKD", mkd)
    ∷ (codes "RMD", rmd)
    ∷ (codes "DELE", dele)
    ∷ (codes "STOR", stor)
    ∷ (codes "RETR", retr)
    ∷ (codes "SIZE", size)
    ∷ (codes "PBSZ", pbsz)
    ∷ (codes "PROT", prot)
    ∷ (codes "OPTS", opts)
    ∷ []

lookup_command : List (Bytes × Command) → Bytes → Option Command
lookup_command [] name = none
lookup_command ((n, c) ∷ table) name = if same n name then some c else lookup_command table name

-- The search in `FTP_COMMANDS`, with the command that the comparisons behind it select.
unfoldable pub find_command : Bytes → Option Command
unfolding lookup_command same
find_command = lookup_command ftp_commands
