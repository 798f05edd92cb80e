-- ===== src/Wire.antt =====
-- `m_handle_client_event` of server/srcs/server/server.c on top of `ws_read`: a socket that is
-- ready, from the frame on its session to what the server does.
pub mod Delivery
use zappy.Prelude.{ℕ, zero, suc, Option, none, some, List, ◌++◌, length, take, drop}
use zappy.Prelude.Int.{ℤ, pos, negsuc}
use zappy.SslTable.{SslTable}
use zappy.WebSocket.{Ssl, Received, ws_read}
use zappy.Server.{Json, Server, handle_client_event}

-- sizeof(buffer)
abbrev pub buffer_size : ℕ
buffer_size = 4096

-- The first bytes of the buffer, as many as `recv` returns, where `stored` has been written into
-- what stood there before; `none` where the client is gone.
unfoldable pub event_bytes : List ℕ → ℤ → List ℕ → Option (List ℕ)
event_bytes buffer (pos zero) stored = none
event_bytes buffer (pos (suc n)) stored =
    some (take (suc n) (stored ++ drop (length stored) buffer))
event_bytes buffer (negsuc n) stored = none

module _ {J W : Type 0} (json : Json (List ℕ) J) (net : Ssl W) where
  handle_received : Server → ℕ → List ℕ → Received W → Server × W
  unfolding event_bytes
  handle_received s fd buffer r =
      (handle_client_event json s fd (event_bytes buffer r.value r.stored), r.sessions)

  -- `buffer` is what stands in the buffer, which is not cleared.
  unfoldable pub m_handle_client_event : SslTable → Server → W → ℕ → List ℕ → Server × W
  unfolding handle_received
  m_handle_client_event t s w fd buffer =
      handle_received s fd buffer (ws_read net t w fd buffer_size)
