-- ===== src/Lib.antt =====
-- asio-ftp: an FTP server whose files stand in a virtual file system of each user, kept in SQLite.
--
-- The start (main.cpp) reads the settings (src/config), makes the tables (src/database) agree with
-- them, and runs the server (src/ftp/server.cpp), which makes a session of each connection. A session
-- (src/ftp) reads a line from its control socket, splits it into a command and an argument, and
-- `handle_command` runs the command on the state of the session, the table of users, the table of
-- objects and the files under data/, which hold the contents of the objects. A session of a server with
-- encryption first waits for a TLS handshake, or for AUTH. All parts use the text and path functions of
-- src/helpers.cpp.
--
-- Base: what the modules share. Base.Ints has the signed integers and the conversions of a machine,
--   Base.Maps `std::map`, Base.Search the loop that counts while a test holds.
-- Helpers: src/helpers.cpp over lists of bytes. Helpers.Strings has `string_split`, `string_join`,
--   `string_to_uppercase`, `string_starts_with` and `string_replace`; Helpers.Paths `get_basename`
--   and `get_parent_path`; Helpers.Uuid `generate_uuid_string`, with `std::rand` as a parameter;
--   Helpers.Decimal `std::to_string` and `std::stoll`.
-- Database: Database.Sqlite has `run_param_query` of src/database/sqlite_wrapper.cpp over a record
--   of SQLite's calls, Database.Connection the rest of that file; Database.Disk
--   src/database/fs_handler.cpp; Database.Schema the statements and table rows of
--   src/database/users.hpp and src/database/fs_objects.hpp, with what SQLite documents of those
--   statements as laws, and Database.Objects.ByPath what it documents of the SELECT behind a listing;
--   Database.Users and Database.Objects the operations of users.cpp and
--   fs_objects.cpp, Database.Checks those of their start; Database.World the database, the files and
--   the count of random numbers, which are passed on from call to call. Database.Memory is a database
--   in memory that satisfies the laws.
-- Config: src/config/parser.cpp. Config.Json is the record of what it uses of boost::json,
--   Config.Defaults has the settings and `make_default_json`, Config.Reader `read_json_config`.
--   Config.Sample has values in memory that satisfy what is relied on.
-- Start: Start.Main has the functions of main.cpp; Start.Accounts the laws of the table of users as a
--   whole, which the table of Start.Book satisfies.
-- Session: Session.State has the members of `base_session` (src/ftp/base_session.hpp), and the
--   actions that it asks of its sockets, the newest first; Session.Commands the table of
--   src/ftp/constants.hpp; Session.Handler `handle_command`, `parse_buffer` and the completion of a
--   read; Session.Navigation the commands on the login and the virtual file system; Session.Transfer
--   and Session.Listing what goes over the data socket, where `data_close` is that of the session's
--   class; Session.Insecure the overrides of src/ftp/insecure_session.cpp; Session.Ports the search of
--   `base_session`'s constructor for a port. Session.Secure is src/ftp/secure_session.cpp:
--   Session.Secure.Overrides has its overrides, which Session.Secure.Agreement compares with those of
--   the plain session that `handle_command` calls, and Session.Secure.Probe what comes before the
--   handshake is over. Session.Events is the step relation of a session of either class whose control
--   connection stands: messages, and what completes on its data channel. The other modules below
--   Session are on their properties.
-- Server: src/ftp/server.cpp, with the sessions over one database; what can throw while a session is
--   made (`set_option`, `SQLiteDb::connect`, `listen`, `remote_endpoint`) is a parameter of each connection.
-- Console: src/custom_utils.cpp.
-- Tests: small databases, settings and sessions, on which every result is tried.
--
-- A call that can throw returns a `Result`. An access past the end of a vector is an error too. The
-- loops of `string_split` and `string_replace` run on fuel, one more than the length of the text:
-- each round but the last takes a byte or more away. The search for a port has fuel for each port of 16
-- bits, and that for the name of a backup is given fuel for the names up to a free one. Numbers are
-- natural numbers with no upper bound but where the code converts them: a port is cut to an `int` and
-- to the 16 bits of an endpoint. Sizes of files are taken to stay below 2 ^ 63, where `std::stoll` ends.
-- The loop of a download is the sequence of its handler's calls, and that of an upload the list of its
-- blocks. The handlers of a TLS handshake and shutdown are called with any error codes. A stream stands
-- for the path that it was opened at: what is written to a file that has been removed is lost.
--
-- Not modelled: logging and the mutex of the console, the options of the TLS context and of the sockets,
-- `get_public_ip`, whose body is comments, `probe_close` and `sleep`, which nothing calls, the time at
-- which buffers are freed, an exception of `available` on a probe socket, and the choice of the
-- completion that comes next: Session.Events allows any order.
pub mod Base
pub mod Helpers
pub mod Database
pub mod Config
pub mod Start
pub mod Session
pub mod Server
pub mod Console
pub mod Tests
