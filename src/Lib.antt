-- ===== src/Lib.antt =====
-- The game server of zappy, in C under server/: a map of tiles without edges on which the players
-- of several teams move, gather stones and reach higher levels, each player driven by the commands
-- of a client on a TLS socket.
--
-- How the parts work together. `main` reads the settings, starts the TLS layer, the clock and the
-- game, and goes round in `main_loop`: the clock is read, `server_select` serves the sockets, and
-- `game_play` plays a turn. New sockets go through two rings to the thread that does the TLS
-- handshake and back; `on_handshake_done` answers the opening of the WebSocket, and from then on
-- `ws_read` and `ws_send` carry the messages in frames. `server_select` hands each message to
-- `m_handle_client_message`, which registers players and schedules their commands as events in the
-- buffer of their client (time_api.c). `game_play` runs through the clients once: it lets a player
-- whose time is over eat or die, and otherwise runs the next event that is due; then it runs the
-- next event of the server, which puts resources on the map. The events call the commands of
-- game.c, which change the map and send replies.
--
-- Which file models which part:
--   Time          server/srcs/time_api/time_api.c: the buffer of ten events of a client and the
--                 clock; Valid, Deque, Delay, Process and Clock are about it.
--   Board         the tile functions of server/srcs/game/game.c and the structures of
--                 game_structs.h; View is the plain view of the map, one list of players for each
--                 tile, and Leave, Enter and Move are about the functions that change the lists.
--   Game          the globals of game.c and its look-ups. Teams, Items, Moves, Vision, Expulse,
--                 Broadcast, Incantation, Spawn: its commands and tables. Life: how players are
--                 registered, schedule commands, and die. Dispatch: the functions that events
--                 call. Play: `game_play`. Init: `game_init`. Observer: the JSON view of the game.
--                 Run: all of it as a transition system (Safe: the seats and the map in every run;
--                 Buffers and Queued: the event buffers in every run); Steady: what the commands
--                 leave alone.
--   SslTable      server/srcs/server/ssl_table.c, the hash table from sockets to sessions.
--   FtList        server/inc/ft_list.c, the circular list of the clients that are to leave; Ring,
--                 Append, Pop and Size are about its operations.
--   Server        server/srcs/server/server.c: the messages and the loop over the sockets.
--   WebSocket     server/srcs/server/ssl_al.c: `ws_read`, `ws_send` and the control frames.
--                 Stream: what is relied on in OpenSSL; Receiving, Sending, Control, Pings: the
--                 frames against RFC 6455; Bounds: the buffer of `ws_read`.
--   Handshakes    server/srcs/server/ssl_al_workers.c: the rings between the two threads. Queue:
--                 a ring as a queue; Taking: the main thread; Order: every interleaving of the
--                 threads.
--   Connections   the rest of ssl_al.c: how clients are accepted, greeted and closed. Sessions is
--                 about the table of sessions, Opening about the opening handshake.
--   Wire          `m_handle_client_event` of server.c on top of `ws_read`.
--   Config        server/srcs/parse_arg/config_file.c: the names and texts; Reading: a line, the
--                 file and what the game takes; Lines, Files and LastWins are about them.
--   Main          server/srcs/main.c and server/srcs/parse_arg/parse_arg.c, with `init_server` and
--                 `cleanup_server`; Loop: the loop;
--                 Rounds: it as steps of Game.Run; Cleanup: the end.
--   Prelude       numbers, bits, texts, lists, Boolean tests and result codes for all.
--   Tests         a small world, a session that is a list of records, and the theorems applied to
--                 them.
--
-- How the model corresponds to the code. A C function `m_game_move_player` or `m_command_avance`
-- is the definition `move_player` or `command_avance`; the functions without the prefix keep their
-- name. Pointers to players and clients are numbers, the memory that they point into a function in
-- the state, a null pointer `none`. The globals of the game are the record `World`, which each
-- function takes and gives back with its result, SUCCESS or ERROR, as `Status`. What is sent to a
-- socket is a value in the list `sent`.
--
-- Numbers are natural. `uint64_t` sums of the clock are taken modulo 2^64. The `int` counters of
-- resources and players are never decremented below 0 by the code; that they stay below 2^31 is
-- taken for granted. Offsets on the map, which may be negative, are integers.
--
-- Loops over arrays and counts are recursion on the list or the count. Loops over linked lists run
-- on fuel: one round for every address that was ever allocated (`next_ptr`) for the players on a
-- tile, which is enough for a list without repetition, and an argument for FtList. A loop that
-- does not end within it leaves `hung` set. The loop over `rand` runs on the fuel `patience`.
--
-- The loops of `ws_read` run on the number of bytes that are missing, the loop of
-- `ssl_al_worker_dequeue_all` on the size of the ring, the loop over the file of settings on the
-- length of the file; each round takes one or more off. `main_loop` is a function of the list of
-- its rounds: what the clock, `select` and the network do in each.
--
-- Parameters: `Machine` has what libm, `rand` and cJSON compute for the game, doubles being bit
-- patterns; `Json` what cJSON makes of a message; `Ssl` the calls of `SSL_read` and `SSL_write`,
-- and `Delivers` and `KeepsRoom` what OpenSSL documents of them; the digest of the opening
-- handshake is SHA1 and base64; `strtod` gives the bit pattern of a double. The readable sockets,
-- the bytes, and whether memory, sockets and certificates are there are arguments.
--
-- Not modelled: the event that sends the JSON view to an observer, whose buffer the code never
-- runs; the threads below the steps between their locks; the signal handler, which ends the list
-- of rounds; the log; memory that is freed, beyond that nothing points to it; the dead loop over
-- the options in `parse_args`; cJSON, which is a copy of another project's library, beyond the
-- order of the calls that build the JSON view; the Java client.
pub mod Prelude
pub mod Time
pub mod Board
pub mod Game
pub mod SslTable
pub mod FtList
pub mod Server
pub mod Tests
pub mod Config
pub mod Connections
pub mod Handshakes
pub mod Main
pub mod WebSocket
pub mod Wire
