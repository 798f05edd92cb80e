-- ===== src/Main/Cleanup.antt =====
-- The end of the server.
use zappy.Prelude.{ℕ, ◌≡◌, if◌then◌else◌, true, false}
use zappy.Board.Chain.{elem}
use zappy.SslTable.{SslTable}
use zappy.Server.{Server, remove_client}

-- One round of the loop of `cleanup_server`.
abbrev round_of : Server → ℕ → Server
round_of s fd = if s.read_fds fd then remove_client s fd else s

-- The loop from fd on takes a socket out of the set, and closes it if it was there.
Swept : Server → ℕ → Server → Type 0
Swept s q s' = (s'.read_fds q ≡ false) × (s.read_fds q ≡ true → elem q s'.closed ≡ true)
