-- ===== src/Game.antt =====
-- The game's state, server/srcs/game/game_structs.h and the globals of server/srcs/game/game.c,
-- with the functions that look up teams, clients and commands.
pub mod Teams
pub mod Items
pub mod Moves
pub mod Replies
pub mod Decimal
pub mod Walk
pub mod Vision
pub mod Expulse
pub mod Broadcast
pub mod Incantation
pub mod Spawn
pub mod Dispatch
pub mod Life
pub mod Play
pub mod Init
pub mod Observer
pub mod Steady
pub mod Run
use text.Mathlib.Text.{◌==◌ as str_eq}
use zappy.Prelude.{
  ℕ, suc, ◌+◌, ◌-◌, ◌<◌, ◌==◌, ltb, leb, if◌then◌else◌, Bool, true, false, Option, none, some, List,
  [], ◌∷◌, String, Status, success, error, get_or, set,
}
use zappy.Prelude.Int.{ℤ}
use zappy.Time.{Event, EventBuffer, TimeApi}
use zappy.Board.{Board, Position, Player, Inventory, set_player}

-- `command_type`, without the count MAX_COMMANDS.
pub data Command : Type 0 where
  avance droite gauche voir inventaire prend pose : Command
  expulse broadcast incantation fork connect_nbr : Command

-- The functions that an event can call.
pub data Callback : Type 0 where
  on_command : Command → Callback
  real_incantation : Callback
  send_map_observer : Callback
  spawn_resources : Callback

-- The arguments of `server_create_response_to_command`.
pub record Reply : Type 0 where
  pub fd : ℕ
  pub cmd : String
  pub arg : Option String
  pub status : Option String

-- What is sent to a socket: a reply, or what a command or the server puts into a JSON object of
-- its own; after the socket come the arguments of `m_create_json_response` for a notice, and the
-- remaining places and the size of the map for a welcome.
pub data Message : Type 0 where
  reply : Reply → Message
  vision : ℕ → List (List String) → Message
  inventory_report : ℕ → Inventory → Message
  notice : ℕ → String → String → Option String → Message
  welcome : ℕ → ℕ → Position → Message

pub record Team : Type 0 where
  pub name : String
  pub max_players : ℕ
  pub current_players : ℕ
  pub players : List ℕ

pub record Client : Type 0 where
  pub socket_fd : ℕ
  pub player : Option ℕ
  pub event_buffer : EventBuffer Callback

-- What the C library, libm and cJSON compute for the game. A `double` is a bit pattern, a number
-- on which only these functions act.
pub record Machine : Type 0 where
  -- cJSON can build and print this reply.
  pub prints : Reply → Bool
  -- `(int)floor((phi + M_PI/8.0) / (M_PI/4.0)) + 1` for the angle of the two arguments of `atan2`.
  pub sector : ℤ → ℤ → ℕ
  -- The n-th result of `rand()`.
  pub rand : ℕ → ℕ
  -- `rand() / (double)RAND_MAX` of a result of `rand()`, `exp(-x)`, `1.0`, `x * y` and `x < y`.
  pub ratio : ℕ → ℕ
  pub exp_neg : ℕ → ℕ
  pub one : ℕ
  pub times : ℕ → ℕ → ℕ
  pub less : ℕ → ℕ → Bool
  -- The rounds after which a loop over `rand()` is given up.
  pub patience : ℕ

-- `spawn_ctx`, its densities as bit patterns.
pub record SpawnCtx : Type 0 where
  pub d_nourriture : ℕ
  pub d_linemate : ℕ
  pub d_deraumere : ℕ
  pub d_sibur : ℕ
  pub d_mendiane : ℕ
  pub d_phiras : ℕ
  pub d_thystame : ℕ
  pub period : ℕ
  pub next_idx : ℕ

-- `m_server`, the other globals of game.c, the game clock, and what the server module keeps for
-- the game. `clients` holds pointers into `client_at`; `next_ptr` is the next address that an
-- allocation returns; `rand_calls` counts the calls of `rand()`; `hung` tells that a loop did not
-- end within its fuel; `sent` is what went to the sockets, newest first; `leaving` are the sockets
-- that the server is to close.
pub record World : Type 0 where
  pub board : Board
  pub open board use *
  pub teams : List Team
  pub clients : List (Option ℕ)
  pub client_at : ℕ → Client
  pub event_buffer : EventBuffer Callback
  pub time : TimeApi
  pub delays : Command → ℕ
  pub incantation_time : ℕ
  pub life_unit : ℕ
  pub start_life_units : ℕ
  pub ctx : SpawnCtx
  pub next_ptr : ℕ
  pub machine : Machine
  pub rand_calls : ℕ
  pub hung : Bool
  pub sent : List Message
  pub max_fd : ℕ
  pub leaving : List ℕ

abbrev pub send : World → Message → World
send w m = record w { sent = m ∷ w.sent }

-- `server_create_response_to_command`.
unfoldable pub respond : World → Reply → Status × World
respond w r = if w.machine.prints r then (success, send w (reply r)) else (error, w)

abbrev pub answer : World → ℕ → String → Option String → Option String → Status × World
answer w fd cmd arg status = respond w (record { fd = fd; cmd = cmd; arg = arg; status = status })

abbrev pub set_board : World → Board → World
set_board w b = record w { board = b }

-- `*p = v`
abbrev pub write_player : World → ℕ → Player → World
write_player w p v = set_board w (set_player w.board p v)

abbrev pub write_client : World → ℕ → Client → World
write_client w c v = record w { client_at = λ d. if c == d then v else w.client_at d }

-- The loop of `m_game_get_client_from_fd` over the slots.
pub find_client : (ℕ → Client) → ℕ → List (Option ℕ) → Option ℕ
find_client mem fd [] = none
find_client mem fd (none ∷ slots) = find_client mem fd slots
find_client mem fd (some c ∷ slots) =
    if (mem c).socket_fd == fd then some c else find_client mem fd slots

-- `m_game_get_client_from_fd`; the array itself is null only after `game_clean`.
unfoldable pub get_client_from_fd : World → ℕ → Option ℕ
unfolding find_client
get_client_from_fd w fd = find_client w.client_at fd w.clients

-- The loop of `m_game_get_team_id`, which gives the first team of that name.
pub find_team : String → List Team → ℕ → Option ℕ
find_team name [] i = none
find_team name (t ∷ ts) i = if str_eq t.name name then some i else find_team name ts (i + 1)

unfoldable pub get_team_id : World → String → Option ℕ
unfolding find_team
get_team_id w name = find_team name w.teams 0
