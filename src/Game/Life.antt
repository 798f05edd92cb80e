-- ===== src/Game/Life.antt =====
-- How players come, act and die: `game_register_player`, `game_execute_command`,
-- `game_kill_player` and `game_player_die`.
pub mod Seats
pub mod Seated
pub mod Admit
pub mod Register
pub mod Queue
pub mod Vacate
pub mod Death
use text.Mathlib.Text.{◌==◌ as str_eq}
use zappy.Prelude.{
  ℕ, ◌+◌, ◌-◌, ◌*◌, ◌%◌, ◌==◌, ltb, if◌then◌else◌, Bool, ◌++◌, Option, none, some, List, [], ◌∷◌,
  String, Status, success, error,
}
use zappy.Time.{add_u64, zero_buffer, schedule_client_event}
use zappy.Board.{
  Direction, north, east, south, west, Position, Inventory, Player, map_index, add_player_to_tile,
  remove_player_from_tile,
}
use zappy.Game.{
  World, Client, Command, avance, droite, gauche, voir, inventaire, prend, pose, expulse, broadcast,
  incantation, fork, connect_nbr, on_command, answer, set_board, write_player, write_client,
  get_client_from_fd, get_team_id,
}
use zappy.Game.Teams.{
  team_at, team_is_full, team_add_player_to_team, team_remove_player_from_team,
  add_client_to_server, remove_client_from_server,
}

-- `rand() % 4` as a direction.
abbrev pub direction_of : ℕ → Direction
direction_of n =
    if n % 4 == 0 then north else if n % 4 == 1 then east else if n % 4 == 2 then south else west

abbrev pub no_items : Inventory
no_items = record {
  nourriture = 0;
  linemate = 0;
  deraumere = 0;
  sibur = 0;
  mendiane = 0;
  phiras = 0;
  thystame = 0;
}

-- `m_game_get_start_pos`: three calls of `rand()`.
unfoldable pub start_pos : World → Position
start_pos w = record {
  x = w.machine.rand w.rand_calls % w.map_x;
  y = w.machine.rand (w.rand_calls + 1) % w.map_y;
}

unfoldable pub start_dir : World → Direction
start_dir w = direction_of (w.machine.rand (w.rand_calls + 2))

-- The new player, in zeroed memory but for these fields. TIME_TO_DIE is the product.
unfoldable pub new_player : World → ℕ → ℕ → Player
unfolding start_pos start_dir
new_player w fd team_id = record {
  id = fd;
  team_id = team_id;
  level = 1;
  pos = start_pos w;
  dir = start_dir w;
  inv = no_items;
  die_time = add_u64 w.time.current_time_units (w.life_unit * w.start_life_units);
  start_time = w.time.current_time_units;
  next_on_tile = none;
  prev_on_tile = none;
}

abbrev pub new_client : ℕ → ℕ → Client
new_client fd p = record { socket_fd = fd; player = some p; event_buffer = zero_buffer }

-- The client is allocated at `next_ptr` and the player behind it.
unfoldable pub allocate : World → ℕ → ℕ → World
unfolding new_player
allocate w fd team_id =
    let c = w.next_ptr in
    let p = w.next_ptr + 1 in
    let w' = write_player (write_client w c (new_client fd p)) p (new_player w fd team_id) in
    record w' { next_ptr = w.next_ptr + 2; rand_calls = w.rand_calls + 3 }

abbrev pub enter_map : World → ℕ → World
enter_map w p = set_board w (add_player_to_tile w.board (map_index w.board (w.player_at p).pos) p)

-- The results of the last two calls are not looked at.
unfoldable pub spawn_player : World → ℕ → ℕ → World
unfolding allocate
spawn_player w fd team_id =
    let c = w.next_ptr in
    let p = w.next_ptr + 1 in
    let entered = enter_map (allocate w fd team_id) p in
    (add_client_to_server (team_add_player_to_team entered p).1 c).1

unfoldable pub game_register_player : World → ℕ → String → Status × World
unfolding spawn_player
game_register_player w fd team_name = elim (get_team_id w team_name) [
  | none ↦ (error, w)
  | some id ↦ if team_is_full (team_at w id) then (error, w) else (success, spawn_player w fd id)
]

-- `command_messages`
abbrev pub command_messages : List (Command × String)
command_messages =
    (avance, "avance")
    ∷ (droite, "droite")
    ∷ (gauche, "gauche")
    ∷ (voir, "voir")
    ∷ (inventaire, "inventaire")
    ∷ (prend, "prend")
    ∷ (pose, "pose")
    ∷ (expulse, "expulse")
    ∷ (broadcast, "broadcast")
    ∷ (incantation, "incantation")
    ∷ (fork, "fork")
    ∷ (connect_nbr, "connect_nbr")
    ∷ []

unfoldable pub find_command : String → List (Command × String) → Option Command
find_command cmd [] = none
find_command cmd ((c, name) ∷ rest) = if str_eq cmd name then some c else find_command cmd rest

-- A client that is not found is taken to be dead. The result of the scheduling is not looked at.
unfoldable pub game_execute_command : World → ℕ → String → Option String → Status × World
unfolding find_command
game_execute_command w fd cmd arg = elim (get_client_from_fd w fd) [
  | none ↦ (success, w)
  | some c ↦ elim (find_command cmd command_messages) [
    | none ↦ (error, w)
    | some command ↦
        let cl = w.client_at c in
        let (status, b) =
          schedule_client_event (some w.time) cl.event_buffer (w.delays command)
            (some (on_command command)) cl.player arg in
        (success, write_client w c (record cl { event_buffer = b }))
  ]
]

unfoldable pub game_kill_player : World → ℕ → Status × World
game_kill_player w fd = elim (get_client_from_fd w fd) [
  | none ↦ (error, w)
  | some c ↦ elim (w.client_at c).player [
    | none ↦ (error, w)
    | some p ↦
        let pl = w.player_at p in
        (
          success,
          write_player w p (record pl { die_time = 0; inv = record pl.inv { nourriture = 0 } }),
        )
  ]
]

-- `server_remove_client` of server.c: the socket joins the list that `server_select` closes.
unfoldable pub server_remove_client : World → ℕ → Status × World
server_remove_client w fd =
    if ltb w.max_fd fd then (error, w) else (success, record w { leaving = w.leaving ++ fd ∷ [] })

-- Food keeps a player alive for one life unit.
abbrev pub eat : World → ℕ → World
eat w p =
    let pl = w.player_at p in
    write_player w p (record pl {
      inv = record pl.inv { nourriture = pl.inv.nourriture - 1 };
      die_time = add_u64 pl.die_time w.life_unit;
    })

-- What follows once the player has left its team: the tile, the last message and the socket.
unfoldable pub bury : World → ℕ → ℕ → Status × World
unfolding server_remove_client
bury w p fd =
    let left = set_board w (remove_player_from_tile w.board p) in
    server_remove_client (answer left fd "-" (some "die") none).1 fd

-- What follows on the result of `m_team_remove_player_from_team`.
unfoldable pub after_team : Status × World → ℕ → ℕ → Status × World
unfolding bury
after_team (error, w) p fd = (error, w)
after_team (success, w) p fd = bury w p fd

-- What follows on the result of `m_remove_client_from_server`.
unfoldable pub after_slot : Status × World → ℕ → ℕ → Status × World
unfolding after_team
after_slot (error, w) p fd = (error, w)
after_slot (success, w) p fd = after_team (team_remove_player_from_team w p) p fd

-- `game_player_die` for a client with the player `p`.
unfoldable pub player_die : World → ℕ → ℕ → Status × World
unfolding after_slot
player_die w c p =
    if ltb 0 (w.player_at p).inv.nourriture
    then (success, eat w p)
    else after_slot (remove_client_from_server w c) p (w.client_at c).socket_fd

-- Every client of the server has a player; a null pointer would be a fault.
unfoldable pub game_player_die : World → ℕ → Status × World
unfolding player_die
game_player_die w c = elim (w.client_at c).player [
  | none ↦ (error, record w { hung = Bool.true })
  | some p ↦ player_die w c p
]
