-- ===== src/WebSocket/Pings.antt =====
-- What `ws_read` makes of the pings of a client.
use zappy.SslTable.{SslTable}
