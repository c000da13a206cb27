-- ===== src/Session/Secure/Auth.antt =====
-- src/ftp/secure_session.cpp: AUTH, and a client that is gone before it.
use asio_ftp.Base.{
  ℕ, zero, suc, ◌≡◌, ◌≢◌, refl, ◌∙◌, ap, some, List, [], ◌∷◌, ◌++◌, Bytes, codes, same, returned,
}
use asio_ftp.Session.State.{ErrorCode, success, Action, probe_sent, probe_receiving, crlf}
use asio_ftp.Session.Handler.{handle_control_receive_callback}
use asio_ftp.Session.Secure.Probe.{
  SecureSession, Completion, probe_read, awaited, completes, completed, handle_auth,
  on_probe_received, probe_send, probe_receive,
}

-- What k reads that fail leave behind.
abbrev pub failed_reads : ErrorCode → Bytes → ℕ → List Completion
failed_reads ec buffer zero = []
failed_reads ec buffer (suc k) = probe_read ec buffer 0 ∷ failed_reads ec buffer k

abbrev pub refusals : ℕ → List Action → List Action
refusals zero out = out
refusals (suc k) out =
    refusals k (probe_receiving ∷ probe_sent (codes "503 Not AUTH." ++ crlf) ∷ out)

module _ {Db : Type 0} where
  failed_read :
      (ec : ErrorCode) (buffer : Bytes) (p : SecureSession Db)
      → ec ≢ success
      → awaited (p.session).out ≡ some probe_receiving
      → (p' : SecureSession Db) × (completes (awaited (p.session).out) (probe_read ec buffer 0) p
          ≡ returned p')
        × ((p'.session).out ≡ refusals 1 (p.session).out)
  unfolding completes on_probe_received handle_control_receive_callback handle_auth same probe_send
      probe_receive
  failed_read success buffer p bad e = absurd (bad refl)
  failed_read _ buffer p bad e = rw e (_, refl, refl)

  -- A read before AUTH that fails, as each does once the client is gone, is answered and followed by
  -- another read: however many of them fail, each gets one answer, and the session goes on.
  pub completed-disconnected :
      (ec : ErrorCode) (buffer : Bytes) (k : ℕ) (p : SecureSession Db)
      → ec ≢ success
      → awaited (p.session).out ≡ some probe_receiving
      → (p' : SecureSession Db) × (completed (failed_reads ec buffer k) p ≡ returned p')
        × ((p'.session).out ≡ refusals k (p.session).out)
        × (awaited (p'.session).out ≡ some probe_receiving)
  unfolding completed
  completed-disconnected ec buffer zero p bad e = (p, refl, refl, e)
  completed-disconnected ec buffer (suc k) p bad e =
      let (next, step, refused) = failed_read ec buffer p bad e in
      let (last, steps, all, waits) =
        completed-disconnected ec buffer k next bad (ap awaited refused) in
      (last, rw step steps, all ∙ ap (refusals k) refused, waits)
