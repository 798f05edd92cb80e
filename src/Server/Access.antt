-- ===== src/Server/Access.antt =====
-- What a connection without a player can do to the game.
use text.Mathlib.Text.{◌==◌ as str_eq}
use zappy.Prelude.{
  ℕ, ◌+◌, ◌≡◌, refl, ap, ◌∙◌, ◌⊎◌, inl, inr, true, Option, none, some, String, Status, success,
  error, arith, Bool-cases, Option-cases,
}
use zappy.Game.{World, Message, get_client_from_fd}
use zappy.Game.Life.{game_execute_command}
use zappy.Server.{
  Json, player, admin, observer, server_key, find_role, game_register_observer, send_json,
  handle_cmd, handle_login_admin, handle_login_observer, login_handler, login_as, handle_login,
  after_handler, handle_typed, handle_client_message, type_cmd, type_login, type_unknown,
  get_message_type, MessageType,
}

-- Nothing but the sent messages and the next free address has changed.
abbrev pub Untouched : World → World → Type 0
Untouched w w' = w' ≡ record w { sent = w'.sent; next_ptr = w'.next_ptr }

Untouched-trans : (a b c : World) → Untouched a b → Untouched b c → Untouched a c
Untouched-trans a b c u v =
    let f : World → World = λ w. record w { sent = c.sent; next_ptr = c.next_ptr } in v ∙ ap f u

execute_unknown :
    (w : World) (fd : ℕ) (cmd : String) (arg : Option String)
    → get_client_from_fd w fd ≡ none
    → game_execute_command w fd cmd arg ≡ (success, w)
unfolding game_execute_command
execute_unknown w fd cmd arg e = rw (e, game_execute_command) refl

module _ {B J : Type 0} (json : Json B J) where
  -- The message logs in as a player, with the key of the server.
  pub record LogsIn (root : J) : Type 0 where
    pub key : String
    pub has_key : json.get_string root "key" ≡ some key
    pub right : str_eq key server_key ≡ true
    pub role : String
    pub has_role : json.get_string root "role" ≡ some role
    pub as_player : find_role role ≡ some player

  Untouched-send_json : (w : World) (m : Message) → Untouched w (send_json json w m).1
  unfolding send_json
  Untouched-send_json w m = ground arith

  Untouched-cmd :
      (w : World) (fd : ℕ) (root : J)
      → get_client_from_fd w fd ≡ none
      → Untouched w (handle_cmd json w fd root).1
  unfolding handle_cmd
  Untouched-cmd w fd root e = elim (Option-cases (json.get_string root "cmd")) [
    | inl no_cmd ↦ rw (no_cmd, handle_cmd) refl
    | inr (cmd, has) ↦
        rw (has, handle_cmd, execute_unknown w fd cmd (json.get_string root "arg") e) refl
  ]

  Untouched-admin :
      (w : World) (fd : ℕ) (root : J) → Untouched w (handle_login_admin json w fd root).1
  unfolding handle_login_admin
  Untouched-admin w fd root = Untouched-send_json w _

  Untouched-observer :
      (w : World) (fd : ℕ) (root : J) → Untouched w (handle_login_observer json w fd root).1
  unfolding handle_login_observer game_register_observer
  Untouched-observer w fd root =
      Untouched-trans w (record w { next_ptr = w.next_ptr + 1 }) _ refl (Untouched-send_json _ _)

  login_as-cases :
      (w : World) (fd : ℕ) (root : J) (role : Option String)
      → Untouched w (login_as json w fd root role).1
        ⊎ ((r : String) × (role ≡ some r) × (find_role r ≡ some player))
  unfolding login_as login_handler
  login_as-cases w fd root none = inl (Untouched-send_json w _)
  login_as-cases w fd root (some r) = elim (Option-cases (find_role r)) [
    | inl unknown ↦ inl (rw (unknown, login_as) (Untouched-send_json w _))
    | inr (player, e) ↦ inr (r, refl, e)
    | inr (admin, e) ↦ inl (rw (e, login_as) (Untouched-admin w fd root))
    | inr (observer, e) ↦ inl (rw (e, login_as) (Untouched-observer w fd root))
  ]

  login-cases :
      (w : World) (fd : ℕ) (root : J) → Untouched w (handle_login json w fd root).1 ⊎ LogsIn root
  unfolding handle_login
  login-cases w fd root = elim (Option-cases (json.get_string root "key")) [
    | inl no_key ↦ inl (rw (no_key, handle_login) refl)
    | inr (key, has) ↦ elim (Bool-cases (str_eq key server_key)) [
      | inr wrong ↦ inl (rw (has, handle_login, wrong) (Untouched-send_json w _))
      | inl right ↦ elim (login_as-cases w fd root (json.get_string root "role")) [
        | inl kept ↦ inl (rw (has, handle_login, right) kept)
        | inr (role, e, known) ↦ inr (record {
          key = key;
          has_key = has;
          right = right;
          role = role;
          has_role = e;
          as_player = known;
        })
      ]
    ]
  ]

  Untouched-after :
      (w : World) (r : Status × World) (fd : ℕ)
      → Untouched w r.1
      → Untouched w (after_handler json r fd).1
  unfolding after_handler
  Untouched-after w (error, v) fd k = Untouched-trans w v _ k (Untouched-send_json v _)
  Untouched-after w (success, v) fd k = k

  typed-cases :
      (w : World) (fd : ℕ) (root : J) (type : MessageType)
      → get_client_from_fd w fd ≡ none
      → Untouched w (handle_typed json w fd root type).1 ⊎ LogsIn root
  unfolding handle_typed
  typed-cases w fd root type_cmd e =
      inl (Untouched-after w (handle_cmd json w fd root) fd (Untouched-cmd w fd root e))
  typed-cases w fd root type_login e = elim (login-cases w fd root) [
    | inl kept ↦ inl (Untouched-after w (handle_login json w fd root) fd kept)
    | inr in_ ↦ inr in_
  ]
  typed-cases w fd root type_unknown e = inl (Untouched-send_json w _)

  -- `m_handle_client_message` for a socket without a client: whatever the bytes are, the game is
  -- untouched but for what is sent and allocated, unless they are an object that logs in as a
  -- player and has the key of the server.
  pub message-Untouched :
      (w : World) (fd : ℕ) (bytes : B)
      → get_client_from_fd w fd ≡ none
      → Untouched w (handle_client_message json w fd bytes).1
        ⊎ ((root : J) × (json.parse bytes ≡ some root) × LogsIn root)
  unfolding handle_client_message
  message-Untouched w fd bytes e = elim (Option-cases (json.parse bytes)) [
    | inl bad ↦ inl (rw (bad, handle_client_message) refl)
    | inr (root, good) ↦ elim (Option-cases (json.get_string root "type")) [
      | inl no_type ↦ inl (rw (good, handle_client_message, no_type) (Untouched-send_json w _))
      | inr (type, has) ↦ elim (typed-cases w fd root (get_message_type type) e) [
        | inl kept ↦ inl (rw (good, handle_client_message, has) kept)
        | inr in_ ↦ inr (root, good, in_)
      ]
    ]
  ]
