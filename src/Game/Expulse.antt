-- ===== src/Game/Expulse.antt =====
-- `expulse`: the loop that pushes the players of a tile to the next one.
pub mod Single
pub mod Spin
use zappy.Prelude.{ℕ, zero, suc, ◌==◌, if◌then◌else◌, Bool, Option, none, some, String, Status}
use zappy.Board.{Direction, north, east, south, west, Position, map_index, move_player, step_ahead}
use zappy.Game.{World, answer, set_board}

-- `direction_table`, a row for each direction of the player that pushes.
abbrev pub direction_table : Direction → Direction → String
direction_table north north = "1"
direction_table north east = "7"
direction_table north south = "5"
direction_table north west = "3"
direction_table east north = "3"
direction_table east east = "1"
direction_table east south = "7"
direction_table east west = "5"
direction_table south north = "5"
direction_table south east = "3"
direction_table south south = "1"
direction_table south west = "7"
direction_table west north = "7"
direction_table west east = "5"
direction_table west south = "3"
direction_table west west = "1"

-- The body of the loop for the player `it`.
unfoldable pub expel : World → ℕ → Position → ℕ → World
expel w p new it =
    let pl = w.player_at p in
    let w' = set_board w (move_player w.board it new) in
    if (w.player_at it).id == pl.id
    then w
    else (answer w' (w'.player_at it).id "deplacement" none
        (some (direction_table pl.dir pl.dir))).1

-- `for (it = t->players; it; it = it->next_on_tile)`: the link is read after the move. `none`
-- means that the fuel ran out.
unfoldable pub expulse_loop : ℕ → World → ℕ → Position → Option ℕ → Option World
expulse_loop fuel w p new none = some w
expulse_loop zero w p new (some it) = none
expulse_loop (suc fuel) w p new (some it) =
    let w' = expel w p new it in expulse_loop fuel w' p new (w'.player_at it).next_on_tile

-- A loop that does not end within the fuel leaves the server hung.
abbrev pub after_loop : World → ℕ → Option World → Status × World
after_loop w p none = (Status.error, record w { hung = Bool.true })
after_loop w p (some w') = answer w' (w'.player_at p).id "expulse" none (some "ok")

-- The body of `m_command_expulse` for the first player of the tile.
unfoldable pub expulse_from : World → ℕ → Option ℕ → Status × World
expulse_from w p none = answer w (w.player_at p).id "expulse" none (some "ok")
expulse_from w p (some it) = after_loop w p (
    expulse_loop w.next_ptr w p (step_ahead w.board (w.player_at p).pos (w.player_at p).dir)
      (some it))

unfoldable pub command_expulse : World → ℕ → Status × World
unfolding expulse_from
command_expulse w p = expulse_from w p (w.tile_at (map_index w.board (w.player_at p).pos)).players
