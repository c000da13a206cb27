-- ===== src/Session/Ports.antt =====
-- src/ftp/base_session.cpp: the constructor's search for a port of the data acceptor.
use asio_ftp.Base.{ℕ, ◌%◌, ◌^◌, ◌==◌, ◌||◌, Bool, not, count_while}

abbrev pub data_channel_begin_port : ℕ
data_channel_begin_port = 7000

-- An endpoint holds a port of 16 bits: an `int` is cut to it.
unfoldable pub endpoint_port : ℕ → ℕ
endpoint_port port = port % 2 ^ 16

module _ (can_bind : ℕ → Bool) where
  -- For the port 0 the system chooses a free one, and `bind` succeeds.
  abbrev pub binds : ℕ → Bool
  binds p = p == 0 || can_bind p

  abbrev pub bind_fails : ℕ → Bool
  bind_fails port = not (binds (endpoint_port port))

  -- `while (true)`, left when `bind` succeeds.
  unfoldable pub choose_port : ℕ → ℕ
  choose_port fuel = count_while bind_fails fuel data_channel_begin_port
