-- ===== src/Server/Moves.antt =====
-- What the server does to the game, as steps of the game.
use text.Mathlib.Text.{◌==◌ as str_eq}
use zappy.Prelude.{
  ℕ, zero, suc, ◌+◌, inl, inr, Bool, ◌==◌, if◌then◌else◌, Option, none, some, String, List, [], ◌∷◌,
  Status, success, error, Bool-cases, Option-cases, Status-cases,
}
use zappy.Game.{World, Message, notice}
use zappy.Game.Life.{game_register_player}
use zappy.Game.Run.{
  Step, registers, commands, disconnects, tells, closes, allocates, Steps, stays, then_,
}
use zappy.Server.{
  Json, Server, Role, player, admin, observer, server_key, find_role, game_register_observer,
  send_json, create_json_response, handle_cmd, handle_login_admin, handle_login_observer,
  welcome_client, handle_login_client, login_handler, login_as, handle_login, after_handler,
  handle_typed, handle_client_message, type_cmd, type_login, type_unknown, get_message_type,
  MessageType, remove_client, remove_each, reached, remove_clients, handle_client_event,
  select_loop, server_select,
}

pub Steps-trans : {u v w : World} → Steps u v → Steps v w → Steps u w
Steps-trans a stays = a
Steps-trans a (then_ b s) = then_ (Steps-trans a b) s

one : {v w : World} → Step v w → Steps v w
one s = then_ stays s

module _ {B J : Type 0} (json : Json B J) where
  Steps-send_json : (w : World) (m : Message) → Steps w (send_json json w m).1
  unfolding send_json
  Steps-send_json w m = elim (Bool-cases (json.prints m)) [
    | inl can ↦ rw can (one (tells w m))
    | inr cannot ↦ rw cannot stays
  ]

  pub Steps-response :
      (w : World) (fd : ℕ) (type msg : String) → Steps w (create_json_response json w fd type msg).1
  Steps-response w fd type msg = Steps-send_json w (notice fd type msg none)

  Steps-cmd : (w : World) (fd : ℕ) (root : J) → Steps w (handle_cmd json w fd root).1
  unfolding handle_cmd
  Steps-cmd w fd root = elim (Option-cases (json.get_string root "cmd")) [
    | inl no_cmd ↦ rw (no_cmd, handle_cmd) stays
    | inr (cmd, has) ↦ rw (has, handle_cmd) (one (commands w fd cmd (json.get_string root "arg")))
  ]

  Steps-observer :
      (w : World) (fd : ℕ) (root : J) → Steps w (handle_login_observer json w fd root).1
  unfolding handle_login_observer game_register_observer
  Steps-observer w fd root = Steps-trans (one (allocates w)) (Steps-send_json _ _)

  Steps-welcome :
      (w : World) (r : Status × World) (fd : ℕ) → Steps w r.1 → Steps w (welcome_client json r fd).1
  unfolding welcome_client
  Steps-welcome w (error, v) fd k = Steps-trans k (Steps-send_json v _)
  Steps-welcome w (success, v) fd k = Steps-trans k (Steps-send_json v _)

  Steps-client : (w : World) (fd : ℕ) (root : J) → Steps w (handle_login_client json w fd root).1
  unfolding handle_login_client
  Steps-client w fd root = elim (Option-cases (json.get_string root "team-name")) [
    | inl no_name ↦ rw (no_name, handle_login_client) (Steps-send_json w _)
    | inr (name, has) ↦
        rw (has, handle_login_client)
          (Steps-welcome w (game_register_player w fd name) fd (one (registers w fd name)))
  ]

  Steps-handler :
      (r : Role) (w : World) (fd : ℕ) (root : J) → Steps w (login_handler json r w fd root).1
  unfolding login_handler handle_login_admin
  Steps-handler player w fd root = Steps-client w fd root
  Steps-handler admin w fd root = Steps-send_json w _
  Steps-handler observer w fd root = Steps-observer w fd root

  Steps-login_as :
      (w : World) (fd : ℕ) (root : J) (role : Option String)
      → Steps w (login_as json w fd root role).1
  unfolding login_as
  Steps-login_as w fd root none = Steps-send_json w _
  Steps-login_as w fd root (some r) = elim (Option-cases (find_role r)) [
    | inl unknown ↦ rw (unknown, login_as) (Steps-send_json w _)
    | inr (role, e) ↦ rw (e, login_as) (Steps-handler role w fd root)
  ]

  Steps-login : (w : World) (fd : ℕ) (root : J) → Steps w (handle_login json w fd root).1
  unfolding handle_login
  Steps-login w fd root = elim (Option-cases (json.get_string root "key")) [
    | inl no_key ↦ rw (no_key, handle_login) stays
    | inr (key, has) ↦ elim (Bool-cases (str_eq key server_key)) [
      | inr wrong ↦ rw (has, handle_login, wrong) (Steps-send_json w _)
      | inl right ↦
          rw (has, handle_login, right) (Steps-login_as w fd root (json.get_string root "role"))
    ]
  ]

  Steps-after :
      (w : World) (r : Status × World) (fd : ℕ) → Steps w r.1 → Steps w (after_handler json r fd).1
  unfolding after_handler
  Steps-after w (error, v) fd k = Steps-trans k (Steps-send_json v _)
  Steps-after w (success, v) fd k = k

  Steps-typed :
      (w : World) (fd : ℕ) (root : J) (type : MessageType)
      → Steps w (handle_typed json w fd root type).1
  unfolding handle_typed
  Steps-typed w fd root type_cmd =
      Steps-after w (handle_cmd json w fd root) fd (Steps-cmd w fd root)
  Steps-typed w fd root type_login =
      Steps-after w (handle_login json w fd root) fd (Steps-login w fd root)
  Steps-typed w fd root type_unknown = Steps-send_json w _

  Steps-message :
      (w : World) (fd : ℕ) (bytes : B) → Steps w (handle_client_message json w fd bytes).1
  unfolding handle_client_message
  Steps-message w fd bytes = elim (Option-cases (json.parse bytes)) [
    | inl bad ↦ rw (bad, handle_client_message) stays
    | inr (root, good) ↦ elim (Option-cases (json.get_string root "type")) [
      | inl no_type ↦ rw (good, handle_client_message, no_type) (Steps-send_json w _)
      | inr (type, has) ↦
          rw (good, handle_client_message, has) (Steps-typed w fd root (get_message_type type))
    ]
  ]

  Steps-event :
      (s : Server) (fd : ℕ) (received : Option B)
      → Steps s.game (handle_client_event json s fd received).game
  unfolding handle_client_event remove_client
  Steps-event s fd none = one (disconnects s.game fd)
  Steps-event s fd (some bytes) =
      elim (Status-cases (handle_client_message json s.game fd bytes).0) [
        | inl good ↦ rw (good, handle_client_event) (Steps-message s.game fd bytes)
        | inr bad ↦
            rw (bad, handle_client_event)
              (Steps-trans (Steps-message s.game fd bytes) (one (disconnects _ fd)))
      ]

  Steps-remove_each : (s : Server) (fds : List ℕ) → Steps s.game (remove_each s fds).game
  unfolding remove_each remove_client
  Steps-remove_each s [] = stays
  Steps-remove_each s (fd ∷ fds) =
      Steps-trans (one (disconnects s.game fd)) (Steps-remove_each (remove_client s fd) fds)

  Steps-remove_clients : (s : Server) → Steps s.game (remove_clients s).game
  unfolding remove_clients
  Steps-remove_clients s =
      Steps-trans (Steps-remove_each s (reached s.game.leaving)) (one (closes _))

  Steps-socket :
      (s : Server) (fd : ℕ) (received : Option B)
      → Steps s.game
          (if fd == s.sock_server then s else handle_client_event json s fd received).game
  Steps-socket s fd received = elim (Bool-cases (fd == s.sock_server)) [
    | inl new ↦ rw new stays
    | inr old ↦ rw old (Steps-event s fd received)
  ]

  -- What a round of the loop makes of a socket.
  abbrev round : (ℕ → Bool) → (ℕ → Option B) → Server → ℕ → Server
  round ready received s fd =
      if ready fd
      then if fd == s.sock_server then s else handle_client_event json s fd (received fd)
      else s

  Steps-round :
      (ready : ℕ → Bool) (received : ℕ → Option B) (s : Server) (fd : ℕ)
      → Steps s.game (round ready received s fd).game
  Steps-round ready received s fd = elim (Bool-cases (ready fd)) [
    | inl readable ↦ rw readable (Steps-socket s fd (received fd))
    | inr quiet ↦ rw quiet stays
  ]

  Steps-select_loop :
      (ready : ℕ → Bool) (received : ℕ → Option B) (s : Server) (n fd : ℕ)
      → Steps s.game (select_loop json ready received s n fd).game
  unfolding select_loop
  Steps-select_loop ready received s zero fd = stays
  Steps-select_loop ready received s (suc n) fd =
      Steps-trans (Steps-round ready received s fd)
        (Steps-select_loop ready received (round ready received s fd) n (fd + 1))

  pub server_select-Steps :
      (received : ℕ → Option B) (s : Server) (ready : Option (Option (ℕ → Bool)))
      → Steps s.game (server_select json received s ready).1.game
  unfolding server_select
  server_select-Steps received s none = stays
  server_select-Steps received s (some none) = stays
  server_select-Steps received s (some (some ready)) =
      Steps-trans (Steps-select_loop ready received s (s.game.max_fd + 1) 0)
        (Steps-remove_clients _)
