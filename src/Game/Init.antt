-- ===== src/Game/Init.antt =====
-- `game_init` and `game_init_map`: the first state of the game. What the configuration file says
-- is an argument.
pub mod Empty
pub mod Ready
use zappy.Prelude.{
  ℕ, zero, suc, ◌+◌, ◌*◌, ◌/◌, Bool, if◌then◌else◌, some, none, List, [], ◌∷◌, map, String, Status,
  success, replicate,
}
use zappy.Time.{schedule_client_event}
use zappy.Board.{Position, Inventory, Tile, Board, map_index, set_tile}
use zappy.Game.{World, Command, SpawnCtx, spawn_resources, incantation, set_board}
use zappy.Game.Teams.{init_team}
use zappy.Game.Spawn.{draw_inventory}

-- What `parse_set_life_unit` and the other functions of config_file.c deliver.
pub record Settings : Type 0 where
  pub life_unit : ℕ
  pub start_life_units : ℕ
  pub initial_density : SpawnCtx
  pub delays : Command → ℕ
  pub respawn_context : SpawnCtx
  pub respawn_resources : Bool

-- A tile of zeroed memory.
abbrev pub zero_tile : Tile
zero_tile = record {
  pos = record { x = 0; y = 0 };
  items = record {
    nourriture = 0;
    linemate = 0;
    deraumere = 0;
    sibur = 0;
    mendiane = 0;
    phiras = 0;
    thystame = 0;
  };
  players = none;
}

-- The body of the loops of `game_init_map`.
unfoldable pub lay_tile : World → SpawnCtx → Position → World
lay_tile w density place =
    let (items, w') = draw_inventory w density in
    set_board w' (
      set_tile w'.board (map_index w'.board place)
        (record { pos = place; items = items; players = none }))

-- `for (j = 0; j < height; j++)` with `n` rounds left.
unfoldable pub lay_column : World → SpawnCtx → ℕ → ℕ → ℕ → World
lay_column w density i zero j = w
lay_column w density i (suc n) j =
    lay_column (lay_tile w density (record { x = i; y = j })) density i n (j + 1)

-- `for (i = 0; i < width; i++)` with `n` rounds left.
unfoldable pub lay_columns : World → SpawnCtx → ℕ → ℕ → ℕ → World
lay_columns w density height zero i = w
lay_columns w density height (suc n) i =
    lay_columns (lay_column w density i height 0) density height n (i + 1)

unfoldable pub game_init_map : World → Settings → ℕ → ℕ → World
game_init_map w s width height =
    lay_columns (record w { life_unit = s.life_unit; start_life_units = s.start_life_units })
      s.initial_density height width 0

-- `m_server` as `game_init` allocates and clears it.
abbrev pub cleared : World → ℕ → ℕ → World
cleared w width height =
    set_board w (record w.board { map_x = width; map_y = height; tile_at = λ i. zero_tile })

-- `command_prototypes[INCANTATION].delay = 0`
abbrev pub no_delay : (Command → ℕ) → Command → ℕ
no_delay delays incantation = 0
no_delay delays other = delays other

abbrev pub first_spawn : World → World
first_spawn w =
    let (status, b) =
      schedule_client_event (some w.time) w.event_buffer w.ctx.period (some spawn_resources) none
        none in
    record w { event_buffer = b }

unfoldable pub game_init : World → Settings → ℕ → ℕ → List String → ℕ → ℕ → Status × World
unfolding game_init_map
game_init w s width height teams nb_clients nb_teams =
    let w₁ = record w { delays = no_delay s.delays; incantation_time = s.delays incantation } in
    let w₂ = game_init_map (cleared w₁ width height) s width height in
    let w₃ = record w₂ {
      teams = map (λ name. init_team name (nb_clients / nb_teams)) teams;
      clients = replicate nb_clients none;
      ctx = s.respawn_context;
    } in
    (success, if s.respawn_resources then first_spawn w₃ else w₃)
