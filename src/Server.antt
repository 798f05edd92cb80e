-- ===== src/Server.antt =====
-- server/srcs/server/server.c: what the server makes of the messages that clients send, and its
-- loop over the sockets. A socket is not negative. The JSON library is the parameter `Json`, the
-- network the arguments of `server_select`.
pub mod Access
pub mod Leaving
pub mod Moves
use text.Mathlib.Text.{◌==◌ as str_eq}
use zappy.Prelude.{
  ℕ, zero, suc, ◌+◌, ◌-◌, ◌==◌, ltb, if◌then◌else◌, Bool, true, false, Option, none, some, List, [],
  ◌∷◌, String, Status, success, error,
}
use zappy.Game.{World, Message, notice, welcome, send, get_client_from_fd}
use zappy.Game.Teams.{team_at}
use zappy.Game.Life.{game_register_player, game_execute_command, game_kill_player}

-- What cJSON does: `B` are the bytes of a message, `J` its trees. `get_string` gives the string
-- that an object has under a name, `none` where there is no such item or it is no string.
-- `prints` tells whether an object can be built and printed.
pub record Json (B J : Type 0) : Type 0 where
  pub parse : B → Option J
  pub get_string : J → String → Option String
  pub prints : Message → Bool

-- `m_read_fds`, `m_sock_server` and the game with the other globals; `closed` are the sockets that
-- were closed, newest first.
pub record Server : Type 0 where
  pub game : World
  pub read_fds : ℕ → Bool
  pub sock_server : ℕ
  pub closed : List ℕ

-- `client_message_type`
pub data MessageType : Type 0 where
  type_cmd type_login type_unknown : MessageType

-- SERVER_KEY
abbrev pub server_key : String
server_key = "SOME_KEY"

-- The loop over `client_messages` without its last row.
unfoldable pub get_message_type : String → MessageType
get_message_type str =
    if str_eq "cmd" str then type_cmd else if str_eq "login" str then type_login else type_unknown

-- `login_roles`
pub data Role : Type 0 where
  player admin observer : Role

-- The loop over `login_roles`.
unfoldable pub find_role : String → Option Role
find_role str =
    if str_eq str "player"
    then some player
    else if str_eq str "admin"
    then some admin
    else if str_eq str "observer"
    then some observer
    else none

-- `game_register_observer`: the observer lies in memory that nothing points to afterwards.
unfoldable pub game_register_observer : World → ℕ → Status × World
game_register_observer w fd = (success, record w { next_ptr = w.next_ptr + 1 })

-- `game_get_team_remaining_clients`; the caller has just registered the socket.
unfoldable pub game_get_team_remaining_clients : World → ℕ → ℕ
game_get_team_remaining_clients w fd = elim (get_client_from_fd w fd) [
  | none ↦ 0
  | some c ↦ elim (w.client_at c).player [
    | none ↦ 0
    | some p ↦ let t = team_at w (w.player_at p).team_id in t.max_players - t.current_players
  ]
]

-- REMOVE_CLIENT
unfoldable pub remove_client : Server → ℕ → Server
remove_client s fd = record s {
  read_fds = λ q. if fd == q then false else s.read_fds q;
  game = (game_kill_player s.game fd).1;
  closed = fd ∷ s.closed;
}

-- The nodes of the list of leaving clients that `m_remove_clients` comes to: all but the head,
-- or the head alone, as `FtList.Ring` shows of the list itself.
unfoldable pub reached : List ℕ → List ℕ
reached [] = []
reached (x ∷ []) = x ∷ []
reached (x ∷ y ∷ ys) = y ∷ ys

unfoldable pub remove_each : Server → List ℕ → Server
unfolding remove_client
remove_each s [] = s
remove_each s (fd ∷ fds) = remove_each (remove_client s fd) fds

unfoldable pub remove_clients : Server → Server
unfolding remove_each reached
remove_clients s =
    let s' = remove_each s (reached s.game.leaving) in
    record s' { game = record s'.game { leaving = [] } }

module _ {B J : Type 0} (json : Json B J) where
  unfoldable pub send_json : World → Message → Status × World
  send_json w m = if json.prints m then (success, send w m) else (error, w)

  -- `m_create_json_response`
  abbrev pub create_json_response : World → ℕ → String → String → Status × World
  create_json_response w fd type msg = send_json w (notice fd type msg none)

  -- An error is returned after a response whose own result is not looked at.
  abbrev pub refuse_with : World → ℕ → String → String → Status × World
  refuse_with w fd type msg = (error, (create_json_response w fd type msg).1)

  unfoldable pub handle_cmd : World → ℕ → J → Status × World
  handle_cmd w fd root = elim (json.get_string root "cmd") [
    | none ↦ (error, w)
    | some cmd ↦ game_execute_command w fd cmd (json.get_string root "arg")
  ]

  unfoldable pub handle_login_admin : World → ℕ → J → Status × World
  handle_login_admin w fd root = refuse_with w fd "ko" "Not handled yet"

  unfoldable pub handle_login_observer : World → ℕ → J → Status × World
  handle_login_observer w fd root = elim (game_register_observer w fd).0 [
    | error ↦ refuse_with (game_register_observer w fd).1 fd "error" "Failed to register observer"
    | success ↦ (
      success,
      (create_json_response (game_register_observer w fd).1 fd "ok" "Observer registered").1,
    )
  ]

  -- What follows on the result of `game_register_player`.
  unfoldable pub welcome_client : Status × World → ℕ → Status × World
  welcome_client (error, w) fd = refuse_with w fd "error" "Failed to register player"
  welcome_client (success, w) fd =
      send_json w
        (welcome fd (game_get_team_remaining_clients w fd) (record { x = w.map_x; y = w.map_y }))

  unfoldable pub handle_login_client : World → ℕ → J → Status × World
  unfolding welcome_client
  handle_login_client w fd root = elim (json.get_string root "team-name") [
    | none ↦ refuse_with w fd "error" "Invalid team name"
    | some name ↦ welcome_client (game_register_player w fd name) fd
  ]

  -- `m_login_handlers`
  unfoldable pub login_handler : Role → World → ℕ → J → Status × World
  unfolding handle_login_client handle_login_admin handle_login_observer
  login_handler player w fd root = handle_login_client w fd root
  login_handler admin w fd root = handle_login_admin w fd root
  login_handler observer w fd root = handle_login_observer w fd root

  unfoldable pub login_as : World → ℕ → J → Option String → Status × World
  unfolding login_handler find_role
  login_as w fd root none = refuse_with w fd "error" "Invalid team name"
  login_as w fd root (some role) = elim (find_role role) [
    | none ↦ refuse_with w fd "error" "Invalid role"
    | some r ↦ login_handler r w fd root
  ]

  unfoldable pub handle_login : World → ℕ → J → Status × World
  unfolding login_as
  handle_login w fd root = elim (json.get_string root "key") [
    | none ↦ (error, w)
    | some key ↦
        if str_eq key server_key
        then login_as w fd root (json.get_string root "role")
        else refuse_with w fd "error" "Invalid key"
  ]

  -- A handler's error is told to the client.
  unfoldable pub after_handler : Status × World → ℕ → Status × World
  after_handler (error, w) fd = refuse_with w fd "error" "Failed to handle message"
  after_handler (success, w) fd = (success, w)

  unfoldable pub handle_typed : World → ℕ → J → MessageType → Status × World
  unfolding after_handler handle_cmd handle_login
  handle_typed w fd root type_cmd = after_handler (handle_cmd w fd root) fd
  handle_typed w fd root type_login = after_handler (handle_login w fd root) fd
  handle_typed w fd root type_unknown = refuse_with w fd "error" "Unknown message type"

  unfoldable pub handle_client_message : World → ℕ → B → Status × World
  unfolding handle_typed get_message_type
  handle_client_message w fd bytes = elim (json.parse bytes) [
    | none ↦ (error, w)
    | some root ↦ elim (json.get_string root "type") [
      | none ↦ refuse_with w fd "error" "Invalid JSON format"
      | some type ↦ handle_typed w fd root (get_message_type type)
    ]
  ]

  -- `m_handle_client_event` and what `server_select` does with an error: `received` is what `recv`
  -- gave, `none` for a closed connection.
  unfoldable pub handle_client_event : Server → ℕ → Option B → Server
  unfolding remove_client handle_client_message
  handle_client_event s fd none = remove_client s fd
  handle_client_event s fd (some bytes) =
      let (status, w) = handle_client_message s.game fd bytes in
      elim status [
        | success ↦ record s { game = w }
        | error ↦ remove_client (record s { game = w }) fd
      ]

  -- `for (fd = 0; fd <= m_max_fd; ++fd)` with `n` rounds left. A new connection changes nothing
  -- here: it is the workers of the TLS layer that report it, by `cb_on_accept_success`.
  unfoldable pub select_loop : (ℕ → Bool) → (ℕ → Option B) → Server → ℕ → ℕ → Server
  unfolding handle_client_event
  select_loop ready received s zero fd = s
  select_loop ready received s (suc n) fd =
      let s' =
        if ready fd
        then if fd == s.sock_server then s else handle_client_event s fd (received fd)
        else s in
      select_loop ready received s' n (fd + 1)

  -- `ready` is the set that `select` returns, `none` for an error; it is empty where `select`
  -- returns 0, and the leaving clients are removed only where it is not.
  unfoldable pub server_select :
      (ℕ → Option B) → Server → Option (Option (ℕ → Bool)) → Status × Server
  unfolding select_loop remove_clients
  server_select received s none = (error, s)
  server_select received s (some none) = (success, s)
  server_select received s (some (some ready)) =
      (success, remove_clients (select_loop ready received s (s.game.max_fd + 1) 0))

  unfoldable pub cb_on_accept_success : Server → ℕ → Status × Server
  cb_on_accept_success s fd =
      let w = record s.game { max_fd = if ltb s.game.max_fd fd then fd else s.game.max_fd } in
      let (status, w') = create_json_response w fd "bienvenue" "Whoa! Knock knock, whos there?" in
      (status, record s { game = w'; read_fds = λ q. if fd == q then true else s.read_fds q })
