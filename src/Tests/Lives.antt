-- ===== src/Tests/Lives.antt =====
-- The theorems on the slots, the teams and the map, at the world with three players.
use zappy.Prelude.{
  length, ◌++◌, ℕ, zero, suc, ◌≤◌, ◌<◌, ◌≡◌, ◌⊎◌, refl, true, none, some, [], ◌∷◌, success, arith,
}
use zappy.Board.{add_player_to_tile}
use zappy.Game.{World, get_team_id, get_client_from_fd, voir, on_command}
use zappy.Game.Teams.{team_at, init_team, add_client_to_server, team_add_player_to_team}
use zappy.Game.Life.{find_command, game_execute_command, game_register_player}
use zappy.Game.Life.Seats.{count_team}
use zappy.Game.Life.Seated.{seats, Seated}
use zappy.Game.Init.{Settings, game_init, lay_columns, lay_column, lay_tile}
use zappy.Game.Spawn.{draw_inventory, game_spawn_resources}
use zappy.Game.Spawn.Growth.{Enriched, spawn_resources-Enriched}
use zappy.Game.Play.{game_play}
use zappy.Game.Run.{starts, goes_on, stays, then_, registers, commands, plays}
use zappy.Game.Run.Safe.{Reachable-Seated}
use zappy.Time.{max_events}
use zappy.Time.Valid.{zero_buffer-IsValid}
use zappy.Time.Deque.{contents, appended}
use zappy.Game.Steady.{Buffered}
use zappy.Game.Run.Buffers.{Steps-Buffered}
use zappy.Game.Run.Queued.{run_execute-queues}
use zappy.Tests.Fixtures.{world, densities}

world-counts : (t : ℕ) → (team_at world t).current_players ≡ count_team t (seats world)
unfolding add_player_to_tile
world-counts zero = refl
world-counts (suc t) = ground arith

world-within : (t : ℕ) → (team_at world t).current_players ≤ (team_at world t).max_players
world-within zero = omega arith
world-within (suc t) = omega arith

-- The world of the tests has seats for its players.
world-Seated : Seated world
unfolding add_player_to_tile
world-Seated = record {
  counts = world-counts;
  within = world-within;
  room = omega arith;
  teamed = (omega arith, (omega arith, (omega arith, tt)));
  allocated = (
    (omega arith, λ p e. ground arith),
    ((omega arith, λ p e. ground arith), ((omega arith, λ p e. ground arith), tt)),
  );
}

abbrev settings : Settings
settings = record {
  life_unit = 126;
  start_life_units = 10;
  initial_density = densities;
  delays = λ c. 7;
  respawn_context = densities;
  respawn_resources = true;
}

-- A player registers in a new game, and a turn is played.
Reachable-Seated_example :
    Seated
      (game_play
        (game_register_player
          (game_init world settings 4 5 ("red" ∷ "blue" ∷ []) 7 2).1
          10
          "red").1).1
Reachable-Seated_example = Reachable-Seated (
    goes_on (goes_on (starts world settings 4 5 7 ("red" ∷ "blue" ∷ [])) (registers _ 10 "red"))
      (plays _))

spawn_resources-Enriched_example :
    let (status, w') = game_spawn_resources world none none in
    (status ≡ success) × Enriched world.board w'.board × (0 < 9 → w'.ctx.next_idx < 9)
unfolding add_player_to_tile
spawn_resources-Enriched_example = spawn_resources-Enriched world none none

world-Buffered : Buffered world
world-Buffered = (λ c. zero_buffer-IsValid, zero_buffer-IsValid)

-- The client on socket 10 sends the command `voir`, a player registers, and a turn is played.
Steps-Buffered_example :
    Buffered
      (game_play (game_register_player (game_execute_command world 10 "voir" none).1 13 "red").1).1
Steps-Buffered_example =
    Steps-Buffered
      (then_ (then_ (then_ stays (commands world 10 "voir" none)) (registers _ 13 "red")) (plays _))
      world-Buffered

abbrev begun : World
begun = (game_register_player (game_init world settings 1 1 ("red" ∷ []) 2 1).1 10 "red").1

begun-registered : get_client_from_fd begun 10 ≡ some 6
unfolding game_init game_register_player get_client_from_fd get_team_id init_team
    add_client_to_server team_add_player_to_team lay_columns lay_column lay_tile draw_inventory
begun-registered = refl

-- A player registers in a new game and sends the command `voir`.
run_execute-queues_example :
    let (status, w') = game_execute_command begun 10 "voir" none in
    let b = (begun.client_at 6).event_buffer in
    let b' = (w'.client_at 6).event_buffer in
    (status ≡ success)
    × (((length (contents b) < max_events)
          × (contents b'
              ≡ contents b
                ++ appended begun.time b
                    (begun.delays voir)
                    (some (on_command voir))
                    (begun.client_at 6).player
                    none
                  ∷ []))
        ⊎ ((length (contents b) ≡ max_events) × (b' ≡ b)))
unfolding find_command
run_execute-queues_example =
    run_execute-queues world begun settings 1 1 2 1 ("red" ∷ []) 10 6 "voir" voir none
      world-Buffered (then_ stays (registers _ 10 "red")) begun-registered refl
