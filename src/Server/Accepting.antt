-- ===== src/Server/Accepting.antt =====
-- src/ftp/server.cpp: the connections that become sessions, and how accepting ends.
use asio_ftp.Base.{
  ◌≡◌, Bool, true, false, not, ◌&&◌, map, if◌then◌else◌, List, [], ◌∷◌, ◌++◌, Result, returned,
  thrown,
}
use asio_ftp.Session.State.{ErrorCode, success}
use asio_ftp.Server.{
  Server, Client, Connection, seen_from, new_client, handle_accept, start_accepting,
}

-- An attempt to accept a connection.
pub record Attempt (Db : Type 0) : Type 0 where
  pub ec : ErrorCode
  pub connection : Connection Db

abbrev pub succeeds : ErrorCode → Bool
succeeds success = true
succeeds _ = false

abbrev pub is_returned : {A : Type 0} → Result A → Bool
is_returned (thrown e) = false
is_returned (returned a) = true

module _ {Db : Type 0} where
  -- Only an attempt that is waited for completes, and none behind an exception.
  behind_attempt :
      (Server Db → Result (Unit {0}) × Server Db)
      → Result (Unit {0}) × Server Db
      → Result (Unit {0}) × Server Db
  behind_attempt later (returned _, v) = later v
  behind_attempt later (thrown e, v) = (thrown e, v)

  unfoldable pub accepted : List (Attempt Db) → Server Db → Result (Unit {0}) × Server Db
  unfolding behind_attempt
  accepted [] v = (returned tt, v)
  accepted (a ∷ attempts) v = elim v.accepting [
    | true ↦ behind_attempt (accepted attempts) (handle_accept a.ec a.connection v)
    | false ↦ (returned tt, v)
  ]

  -- Whether an attempt comes to a session, and whether it comes to an exception.
  abbrev pub is_sound : Connection Db → Bool
  is_sound c =
      c.is_configured
      && is_returned c.users_db
      && is_returned c.objects_db
      && c.listens
      && c.has_peer

  abbrev pub makes_session : Attempt Db → Bool
  makes_session a = succeeds a.ec && is_sound a.connection

  abbrev pub throws : Attempt Db → Bool
  throws a = succeeds a.ec && not (is_sound a.connection)

  -- The connections of the attempts before the first that comes to no session, and whether that one
  -- comes to an exception.
  abbrev pub connected : List (Attempt Db) → List (Connection Db)
  connected [] = []
  connected (a ∷ attempts) =
      let rest = connected attempts in if makes_session a then a.connection ∷ rest else []

  abbrev pub ends_in_throw : List (Attempt Db) → Bool
  ends_in_throw [] = false
  ends_in_throw (a ∷ attempts) =
      let rest = ends_in_throw attempts in if makes_session a then rest else throws a

  abbrev pub new_clients : Server Db → List (Connection Db) → List (Client Db)
  new_clients v = map (λ c. new_client v.secure (seen_from v.world c))

  abbrev with_client : Connection Db → Server Db → Server Db
  with_client c v = start_accepting (record v {
    accepting = false;
    clients = v.clients ++ new_client v.secure (seen_from v.world c) ∷ [];
  })

  abbrev stopped : Server Db → Server Db
  stopped v = record v { accepting = false }

  abbrev IsAccepted : List (Attempt Db) → Server Db → Result (Unit {0}) × Server Db → Type 0
  IsAccepted attempts v end =
      ((end.1).clients ≡ v.clients ++ new_clients v (connected attempts))
      × (is_returned end.0 ≡ not (ends_in_throw attempts))
