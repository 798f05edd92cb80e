-- ===== src/Tests/Fixtures.antt =====
-- A map of three by three tiles, the players on it, and a world around it.
use zappy.Prelude.{
  ℕ, ◌+◌, ◌-◌, ◌*◌, ◌/◌, ◌%◌, ◌≡◌, refl, false, true, none, some, List, [], ◌∷◌, arith,
}
use zappy.Time.{zero_buffer}
use zappy.Board.{Board, Player, Inventory, Position, north, add_player_to_tile}
use zappy.Board.View.{Represents, put_first}
use zappy.Board.Enter.{add-Represents}
use zappy.Game.{World, Machine, SpawnCtx, Team}

abbrev pub at : ℕ → ℕ → Position
at x y = record { x = x; y = y }

abbrev pub nothing : Inventory
nothing = record {
  nourriture = 0;
  linemate = 0;
  deraumere = 0;
  sibur = 0;
  mendiane = 0;
  phiras = 0;
  thystame = 0;
}

-- One stone of each kind.
abbrev pub some_stones : Inventory
some_stones = record nothing { linemate = 3; deraumere = 2; sibur = 2 }

abbrev pub player_named : ℕ → ℕ → Player
player_named fd level = record {
  id = fd;
  team_id = 0;
  level = level;
  pos = at 0 0;
  dir = north;
  inv = nothing;
  die_time = 1260;
  start_time = 0;
  next_on_tile = none;
  prev_on_tile = none;
}

-- The players with the sockets 10, 11 and 12, at the addresses 0, 1 and 2.
abbrev pub empty_board : Board
empty_board = record {
  map_x = 3;
  map_y = 3;
  tile_at = λ i. record { pos = at (i % 3) (i / 3); items = some_stones; players = none };
  player_at = λ p. player_named (p + 10) 1;
}

abbrev pub nobody : ℕ → List ℕ
nobody i = []

pub empty-Represents : Represents empty_board nobody
empty-Represents = record {
  chain = λ i. refl;
  distinct = λ i. tt;
  placed = λ i p e. absurd (ground arith);
  tiles = λ pos inside.
      let column : (pos.y * 3 + pos.x) % 3 ≡ pos.x = omega arith in
      let row : (pos.y * 3 + pos.x) / 3 ≡ pos.y = omega arith in rw (column, row);
}

-- The players 0 and 1 on the tile in the middle, in that order, and 2 on the tile north of it.
abbrev pub crowd : Board
unfolding add_player_to_tile
crowd = add_player_to_tile (add_player_to_tile (add_player_to_tile empty_board 4 1) 4 0) 1 2

abbrev pub crowd_view : ℕ → List ℕ
crowd_view = put_first (put_first (put_first nobody 4 1) 4 0) 1 2

pub crowd-Represents : Represents crowd crowd_view
unfolding add_player_to_tile
crowd-Represents =
    let one = add_player_to_tile empty_board 4 1 in
    let two = add_player_to_tile one 4 0 in
    add-Represents two (put_first (put_first nobody 4 1) 4 0) (at 1 0) 2
      (add-Represents one (put_first nobody 4 1) (at 1 1) 0
        (add-Represents empty_board nobody (at 1 1) 1 empty-Represents (λ j. refl) (ground arith))
        (λ j. ground arith) (ground arith))
      (λ j. ground arith) (ground arith)

abbrev pub machine : Machine
machine = record {
  prints = λ r. true;
  sector = λ x y. 1;
  rand = λ n. n;
  ratio = λ n. n;
  exp_neg = λ x. 0;
  one = 1;
  times = λ a b. a * b;
  less = λ a b. true;
  patience = 5;
}

abbrev pub densities : SpawnCtx
densities = record {
  d_nourriture = 1;
  d_linemate = 1;
  d_deraumere = 1;
  d_sibur = 1;
  d_mendiane = 1;
  d_phiras = 1;
  d_thystame = 1;
  period = 10;
  next_idx = 0;
}

abbrev pub team_named : ℕ → Team
team_named n = record { name = "red"; max_players = 5; current_players = n; players = [] }

-- The clients of the three players, at the addresses 3, 4 and 5.
abbrev pub world : World
world = record {
  board = crowd;
  teams = team_named 3 ∷ [];
  clients = some 3 ∷ some 4 ∷ some 5 ∷ none ∷ none ∷ [];
  client_at = λ c. record { socket_fd = c + 7; player = some (c - 3); event_buffer = zero_buffer };
  event_buffer = zero_buffer;
  time = record { t = 100; start_time_ms = 0; current_time_units = 50 };
  delays = λ c. 7;
  incantation_time = 300;
  life_unit = 126;
  start_life_units = 10;
  ctx = densities;
  next_ptr = 6;
  machine = machine;
  rand_calls = 0;
  hung = false;
  sent = [];
  max_fd = 20;
  leaving = [];
}
