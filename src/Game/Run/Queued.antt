-- ===== src/Game/Run/Queued.antt =====
-- What becomes of the commands of a client in a game that runs.
use zappy.Prelude.{
  ℕ, zero, suc, ◌+◌, ◌/◌, ◌<◌, ◌≡◌, ◌⊎◌, inl, inr, Option, none, some, String, List, [], ◌∷◌, ◌++◌,
  length, Bool-cases, success, map, replicate,
}
use zappy.Time.{max_events}
use zappy.Time.Valid.{schedule-IsValid}
use zappy.Time.Deque.{contents, appended}
use zappy.Board.{Position}
use zappy.Game.{
  World, SpawnCtx, on_command, spawn_resources, incantation, Command, get_client_from_fd,
}
use zappy.Game.Life.{find_command, command_messages, game_execute_command}
use zappy.Game.Life.Queue.{execute-queues}
use zappy.Game.Init.{
  Settings, lay_tile, lay_column, lay_columns, game_init_map, game_init, first_spawn, cleared,
  no_delay,
}
use zappy.Game.Steady.{Buffered}
use zappy.Game.Teams.{init_team}
use zappy.Game.Steady.Rituals.{Steady-draw}
use zappy.Game.Run.{Steps}
use zappy.Game.Run.Buffers.{Steps-Buffered}

Buffered-lay_tile :
    (w : World) (density : SpawnCtx) (place : Position)
    → Buffered w
    → Buffered (lay_tile w density place)
unfolding lay_tile
Buffered-lay_tile w density place v = (Steady-draw w density).buffers v

Buffered-lay_column :
    (w : World) (density : SpawnCtx) (i n j : ℕ)
    → Buffered w
    → Buffered (lay_column w density i n j)
unfolding lay_column
Buffered-lay_column w density i zero j v = v
Buffered-lay_column w density i (suc n) j v =
    Buffered-lay_column (lay_tile w density (record { x = i; y = j })) density i n (j + 1)
      (Buffered-lay_tile w density (record { x = i; y = j }) v)

Buffered-lay_columns :
    (w : World) (density : SpawnCtx) (height n i : ℕ)
    → Buffered w
    → Buffered (lay_columns w density height n i)
unfolding lay_columns
Buffered-lay_columns w density height zero i v = v
Buffered-lay_columns w density height (suc n) i v =
    Buffered-lay_columns (lay_column w density i height 0) density height n (i + 1)
      (Buffered-lay_column w density i height 0 v)

first_spawn-Buffered : (w : World) → Buffered w → Buffered (first_spawn w)
first_spawn-Buffered w v = (
  v.0,
  schedule-IsValid (some w.time) w.event_buffer w.ctx.period (some spawn_resources) none none v.1,
)

game_init_map-Buffered :
    (w : World) (s : Settings) (width height : ℕ)
    → Buffered w
    → Buffered (game_init_map w s width height)
unfolding game_init_map
game_init_map-Buffered w s width height v =
    Buffered-lay_columns
      (record w { life_unit = s.life_unit; start_life_units = s.start_life_units })
      s.initial_density height width 0 v

game_init-Buffered :
    (w : World) (s : Settings) (width height nb_clients nb_teams : ℕ) (teams : List String)
    → Buffered w
    → Buffered (game_init w s width height teams nb_clients nb_teams).1
unfolding game_init
game_init-Buffered w s width height nb_clients nb_teams teams v =
    let w₁ = record w { delays = no_delay s.delays; incantation_time = s.delays incantation } in
    let w₂ = game_init_map (cleared w₁ width height) s width height in
    let laid = game_init_map-Buffered (cleared w₁ width height) s width height v in
    let w₃ = record w₂ {
      teams = map (λ name. init_team name (nb_clients / nb_teams)) teams;
      clients = replicate nb_clients none;
      ctx = s.respawn_context;
    } in
    elim (Bool-cases s.respawn_resources) [
      | inl later ↦ rw later (first_spawn-Buffered w₃ laid)
      | inr never ↦ rw never laid
    ]

-- In a game that was started from zeroed buffers and has run on in any way: a known command of a
-- client always makes the call return SUCCESS. If fewer than ten events wait for the client, the
-- command waits behind them afterwards; if ten wait, the command is dropped, without a word, and
-- the buffer is what it was.
pub run_execute-queues :
    (start w : World) (s : Settings) (width height nb_clients nb_teams : ℕ) (teams : List String)
    (fd c : ℕ) (cmd : String) (k : Command) (arg : Option String)
    → Buffered start
    → Steps (game_init start s width height teams nb_clients nb_teams).1 w
    → get_client_from_fd w fd ≡ some c
    → find_command cmd command_messages ≡ some k
    → let (status, w') = game_execute_command w fd cmd arg in
      let b = (w.client_at c).event_buffer in
      let b' = (w'.client_at c).event_buffer in
      (status ≡ success)
      × (((length (contents b) < max_events)
            × (contents b'
                ≡ contents b
                  ++ appended w.time b (w.delays k) (some (on_command k)) (w.client_at c).player arg
                    ∷ []))
          ⊎ ((length (contents b) ≡ max_events) × (b' ≡ b)))
run_execute-queues start w s width height nb_clients nb_teams teams fd c cmd k arg v run here
      known =
    let begun = game_init-Buffered start s width height nb_clients nb_teams teams v in
    execute-queues w fd c cmd k arg here known ((Steps-Buffered run begun).0 c)
