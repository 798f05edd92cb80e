-- ===== src/Connections.antt =====
-- server/srcs/server/ssl_al.c: how a client is accepted, handed to the handshake thread, taken
-- back, greeted and closed, and the start and the end of the layer. A socket is a number, `none`
-- stands for -1.
pub mod Opening
pub mod Sessions
use zappy.Prelude.{
  ℕ, zero, suc, ◌+◌, ◌==◌, ltb, leb, if◌then◌else◌, Bool, true, false, ◌&&◌, ◌||◌, not, Option,
  none, some, List, [], ◌∷◌, ◌++◌, length, drop, codes, c_string, is_space, skip_spaces, Status,
  success, error,
}
use zappy.SslTable.{SslTable, ssl_table_init, ssl_table_add, ssl_table_get, ssl_table_remove}
use zappy.WebSocket.{Ssl}
use zappy.Handshakes.{
  HandshakeTask, Pool, empty_pool, ssl_al_worker_queue, ssl_al_worker_dequeue_all,
}

-- The globals of ssl_al.c, with the session table, the rings and the sessions that it works on:
-- `context` tells whether `m_ctx` is set, `callback` whether `m_callback_success_SSL_accept` and
-- `on_handshake_done` of ssl_al_workers.c are. The sockets that were closed are in `closed`, newest
-- first.
pub record Layer (W : Type 0) : Type 0 where
  pub sock_server : Option ℕ
  pub context : Bool
  pub callback : Bool
  pub table : SslTable
  pub pool : Pool
  pub sessions : W
  pub closed : List ℕ

abbrev pub key_name : List ℕ
key_name = codes "Sec-WebSocket-Key: "

abbrev pub guid : List ℕ
guid = codes "258EAFA5-E914-47DA-95CA-C5AB0DC85B11"

abbrev pub line_end : List ℕ
line_end = 13 ∷ 10 ∷ []

starts_with : List ℕ → List ℕ → Bool
starts_with [] text = true
starts_with (c ∷ cs) [] = false
starts_with (c ∷ cs) (d ∷ ds) = (c == d) && starts_with cs ds

-- `strstr`: the text from the first place on where the name stands.
unfoldable pub strstr : List ℕ → List ℕ → Option (List ℕ)
unfolding starts_with
strstr name [] = if starts_with name [] then some [] else none
strstr name (c ∷ cs) = if starts_with name (c ∷ cs) then some (c ∷ cs) else strstr name cs

-- The conversion %255s of `sscanf` after the spaces, with room for n characters.
word : ℕ → List ℕ → List ℕ
word zero text = []
word (suc n) [] = []
word (suc n) (c ∷ cs) = if is_space c then [] else c ∷ word n cs

-- `sec_websocket_key`
unfoldable pub request_key : List ℕ → List ℕ
unfolding skip_spaces word
request_key header = word 255 (skip_spaces (drop (length key_name) header))

-- `digest` is SHA1 and then base64, as text.
module _ (digest : List ℕ → List ℕ) where
  unfoldable pub response : List ℕ → List ℕ
  response key =
      codes "HTTP/1.1 101 Switching Protocols"
      ++ line_end
      ++ (codes "Upgrade: websocket"
          ++ line_end
          ++ (codes "Connection: Upgrade"
              ++ line_end
              ++ (codes "Sec-WebSocket-Accept: "
                  ++ (digest (key ++ guid) ++ (line_end ++ line_end)))))

  module _ {W : Type 0} (net : Ssl W) where
    answer_header : W → ℕ → Option (List ℕ) → W
    unfolding request_key response
    answer_header w ssl none = w
    answer_header w ssl (some header) = (net.ssl_write w ssl (response (request_key header))).1

    unfoldable pub websocket_handshake : W → ℕ → List ℕ → W
    unfolding answer_header strstr c_string
    websocket_handshake w ssl request = answer_header w ssl (strstr key_name (c_string request))

    -- The label `error` of `on_handshake_done`.
    give_up : Layer W → ℕ → Bool × Layer W
    give_up s fd = (false, record s { closed = fd ∷ s.closed })

    -- From the result of the first `SSL_read` on: whether the callback is called with the socket.
    greet : Layer W → ℕ → ℕ → Option (List ℕ) × W → Bool × Layer W
    unfolding websocket_handshake give_up
    greet s fd ssl (none, w) = give_up (record s { sessions = w }) fd
    greet s fd ssl (some [], w) = give_up (record s { sessions = w }) fd
    greet s fd ssl (some (b ∷ bs), w) =
        (true, record s { sessions = websocket_handshake w ssl (b ∷ bs) })

    -- From the result of `ssl_table_add` on.
    added : Layer W → ℕ → ℕ → Status × SslTable → Bool × Layer W
    unfolding greet give_up
    added s fd ssl (error, t) = give_up (record s { table = t }) fd
    added s fd ssl (success, t) =
        greet (record s { table = t }) fd ssl (net.ssl_read s.sessions ssl 4095)

    -- `allocated` tells whether `malloc` of the table returns memory.
    unfoldable pub on_handshake_done : Bool → Layer W → HandshakeTask → Bool × Layer W
    unfolding added
    on_handshake_done allocated s t =
        added s t.fd t.ssl (ssl_table_add allocated s.table t.fd t.ssl)

    -- The callback on every task, in order: the sockets that the server is told of.
    greet_all : Bool → Layer W → List HandshakeTask → List ℕ × Layer W
    unfolding on_handshake_done
    greet_all allocated s [] = ([], s)
    greet_all allocated s (t ∷ ts) =
        let (greeted, s1) = on_handshake_done allocated s t in
        let (fds, s2) = greet_all allocated s1 ts in ((if greeted then t.fd ∷ fds else fds), s2)

    -- The pool does not change while the callbacks run. The value, and the sockets that the server
    -- is told of.
    unfoldable pub ssl_al_lookup_new_clients : Bool → Layer W → (ℕ × List ℕ) × Layer W
    unfolding greet_all
    ssl_al_lookup_new_clients allocated s =
        let ((value, tasks), p) = ssl_al_worker_dequeue_all s.pool in
        let (fds, s') =
          greet_all allocated (record s { pool = p }) (if s.callback then tasks else []) in
        ((value, fds), s')

abbrev pub unlisted : SslTable → ℕ → Option ℕ → SslTable
unlisted t fd none = t
unlisted t fd (some ssl) = ssl_table_remove t fd

module _ {W : Type 0} where
  -- A client that `accept` returns, and the session that `SSL_new` makes; `none` where they fail.
  -- The value is the socket, `none` for ERROR.
  unfoldable pub ssl_al_accept_client : Layer W → Option ℕ → Option ℕ → Option ℕ × Layer W
  ssl_al_accept_client s accepted session = elim s.sock_server [
    | none ↦ (none, s)
    | some server ↦ elim accepted [
      | none ↦ (none, s)
      | some fd ↦ elim session [
        | none ↦ (none, record s { closed = fd ∷ s.closed })
        | some ssl ↦ (
          some fd,
          record s { pool = (ssl_al_worker_queue s.pool (record { fd = fd; ssl = ssl })).1 },
        )
      ]
    ]
  ]

  -- `SSL_shutdown` and `SSL_free` end the session, which is then in no table.
  unfoldable pub ws_close : Layer W → Option ℕ → Status × Layer W
  ws_close s none = (error, s)
  ws_close s (some fd) = (
    success,
    record s { table = unlisted s.table fd (ssl_table_get s.table fd); closed = fd ∷ s.closed },
  )

  abbrev pub stop_on : Layer W → Option ℕ → Status × Layer W
  stop_on s none = (success, s)
  stop_on s (some fd) = (success, record s { sock_server = none; closed = fd ∷ s.closed })

  unfoldable pub stop_server : Layer W → Status × Layer W
  stop_server s = stop_on s s.sock_server

  unfoldable pub cleanup_ssl_al : Layer W → Status × Layer W
  unfolding stop_server
  cleanup_ssl_al s = (success, (stop_server (record s { context = false })).1)

  unfoldable pub set_server_socket : Layer W → Option ℕ → Layer W
  set_server_socket s sock = record s { sock_server = sock }

  -- What the calls of the system in `_init_server` return: the socket, and whether `bind` and
  -- `listen` succeed. The value is the socket, `none` for ERROR.
  unfoldable pub _init_server : Layer W → Option ℕ → Bool → Bool → Option ℕ × Layer W
  _init_server s none bound listens = (none, s)
  _init_server s (some fd) bound listens =
      if bound && listens then (some fd, s) else (none, record s { closed = fd ∷ s.closed })

  -- From the result of `_init_server` on.
  listening : Option ℕ × Layer W → Option ℕ × Layer W
  listening (none, s) = (none, s)
  listening (some fd, s) = (some fd, record s { callback = true })

  -- `new_context` and `certified` tell whether `SSL_CTX_new` succeeds and the files of the
  -- certificate and of its key are taken. `m_sock_server` is not set here, but by the server.
  unfoldable pub init_ssl_al : Layer W → Bool → Bool → Option ℕ → Bool → Bool → Option ℕ × Layer W
  unfolding listening _init_server
  init_ssl_al s false certified sock bound listens = (none, record s { context = false })
  init_ssl_al s true certified sock bound listens =
      let s1 = record s { context = true } in
      if certified
      then listening (_init_server (record s1 { table = ssl_table_init }) sock bound listens)
      else (none, s1)
