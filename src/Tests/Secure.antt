-- ===== src/Tests/Secure.antt =====
-- The theorems on a session over TLS, tried on the sample session.
use asio_ftp.Base.{◌≡◌, refl, false, some, [], ◌∷◌, ◌++◌, codes, returned, List, arith}
use asio_ftp.Database.Memory.{Memory}
use asio_ftp.Session.State.{
  Session, secure, unauthenticated, logged_in, success, eof, crlf, probe_receiving,
}
use asio_ftp.Session.Insecure
use asio_ftp.Session.Secure.Overrides
use asio_ftp.Session.Secure.Probe.{
  SecureSession, Completion, timer_expired, probe_read, handshaken, awaited, completed, start,
}
use asio_ftp.Session.Secure.Handshake.{Reaches, completed-IsGreeted}
use asio_ftp.Session.Secure.Auth.{failed_reads, refusals, completed-disconnected}
use asio_ftp.Tests.{world, session}

abbrev guest : Session Memory
guest = record (session unauthenticated) { kind = secure; data_socket_open = false }

abbrev ann_session : Session Memory
ann_session = record (session logged_in) { kind = secure }

-- A client that waits, asks for TLS and completes the handshake.
abbrev explicit : List Completion
explicit =
    timer_expired 40 0
    ∷ timer_expired 520 0
    ∷ probe_read success (codes "AUTH TLS" ++ crlf) 10
    ∷ handshaken success
    ∷ []

completed-IsGreeted_example : Reaches world (completed explicit (start 0 0 guest))
completed-IsGreeted_example =
    completed-IsGreeted 0 0 explicit guest refl (tt, (tt, (omega arith, (tt, tt))))

abbrev probed : SecureSession Memory
probed = record {
  session = record guest { out = probe_receiving ∷ [] };
  session_type = codes "FTP ";
  expiry = 40;
}

completed-disconnected_example :
    (p' : SecureSession Memory) × (completed (failed_reads eof [] 3) probed ≡ returned p')
    × ((p'.session).out ≡ refusals 3 (probe_receiving ∷ []))
    × (awaited (p'.session).out ≡ some probe_receiving)
completed-disconnected_example = completed-disconnected eof [] 3 probed (λ e. cc e) refl
