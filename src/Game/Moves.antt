-- ===== src/Game/Moves.antt =====
-- `droite`, `gauche`, `avance`, `connect_nbr` and `fork`.
pub mod Step
pub mod Turns
use zappy.Game.Teams.{team_at}
use zappy.Game.Decimal.{decimal}
use zappy.Prelude.{ℕ, ◌-◌, Option, none, some, String, Status}
use zappy.Board.{Direction, north, east, south, west, move_player, step_ahead}
use zappy.Game.{World, answer, set_board, write_player}

unfoldable pub turn_right : Direction → Direction
turn_right north = east
turn_right east = south
turn_right south = west
turn_right west = north

unfoldable pub turn_left : Direction → Direction
turn_left north = west
turn_left east = north
turn_left south = east
turn_left west = south

unfoldable pub command_droite : World → ℕ → Option String → Status × World
unfolding turn_right
command_droite w p arg =
    let pl = w.player_at p in
    answer (write_player w p (record pl { dir = turn_right pl.dir })) pl.id "droite" arg (some "ok")

unfoldable pub command_gauche : World → ℕ → Option String → Status × World
unfolding turn_left
command_gauche w p arg =
    let pl = w.player_at p in
    answer (write_player w p (record pl { dir = turn_left pl.dir })) pl.id "gauche" arg (some "ok")

unfoldable pub command_avance : World → ℕ → Option String → Status × World
command_avance w p arg =
    let pl = w.player_at p in
    let w' = set_board w (move_player w.board p (step_ahead w.board pl.pos pl.dir)) in
    answer w' (w'.player_at p).id "avance" arg (some "ok")

-- `m_command_fork` answers and does nothing else.
unfoldable pub command_fork : World → ℕ → Status × World
command_fork w p = answer w (w.player_at p).id "fork" none (some "ok")

-- `m_command_connect_nbr`; the nine digits that fit in its buffer are enough for any team here.
unfoldable pub command_connect_nbr : World → ℕ → Status × World
command_connect_nbr w p =
    let pl = w.player_at p in
    let t = team_at w pl.team_id in
    answer w pl.id "connect_nbr" (some (decimal (t.max_players - t.current_players))) none
