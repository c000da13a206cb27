-- ===== src/Session/Secure/Closing.antt =====
-- src/ftp/secure_session.cpp: the end of a transfer, and the transfer behind it.
use asio_ftp.Base.{List, take, ◌∷◌, ◌++◌, Bytes, codes}
use asio_ftp.Database.Sqlite.{Sqlite}
use asio_ftp.Database.World.{World}
use asio_ftp.Session.State.{
  receiving, sent, data_sent, crlf, send_buffer_size, Session, Kind, plain, secure, Action,
  accepting, data_closed, data_shutting,
}

-- What a RETR asks for that has to wait for a data connection.
abbrev pub waited : List Action → List Action
waited out = accepting ∷ receiving ∷ sent (codes "150 Waiting for connection" ++ crlf) ∷ out

-- What is asked for from the end of a download on, up to a RETR that comes at once.
abbrev pub at_once : Kind → Bytes → List Action → List Action
at_once plain contents out = waited (data_closed ∷ sent (codes "226 Sent." ++ crlf) ∷ out)
at_once secure contents out =
    receiving
    ∷ data_sent (take send_buffer_size contents)
    ∷ sent (codes "150 Opening connection." ++ crlf)
    ∷ data_shutting
    ∷ sent (codes "226 Sent." ++ crlf)
    ∷ out

module _ {Db : Type 0} where
  -- RETR has found the file to send.
  abbrev pub finds : Bytes → Session Db → Session Db
  finds id s = record s { sendable_file_id = id }
