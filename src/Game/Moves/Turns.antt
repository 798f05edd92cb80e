-- ===== src/Game/Moves/Turns.antt =====
-- The turns, and what a step does to the board.
use zappy.Prelude.{ℕ, ◌-◌, ◌<◌, ◌+◌, ◌%◌, ◌≡◌, refl, arith}
use zappy.Board.{Board, Direction, north, east, south, west, Position, step_ahead}
use zappy.Board.View.{InMap}
use zappy.Game.Moves.{turn_right, turn_left}

-- `gauche` undoes `droite`, and four turns the same way lead back.
pub turn_left-turn_right :
    (d : Direction)
    → (turn_left (turn_right d) ≡ d)
      × (turn_right (turn_left d) ≡ d)
      × (turn_right (turn_right (turn_right (turn_right d))) ≡ d)
unfolding turn_left turn_right
turn_left-turn_right north = (refl, refl, refl)
turn_left-turn_right east = (refl, refl, refl)
turn_left-turn_right south = (refl, refl, refl)
turn_left-turn_right west = (refl, refl, refl)

down_up : (x m : ℕ) → x < m → ((x + m - 1) % m + 1) % m ≡ x
down_up x m h = grind arith

up_down : (x m : ℕ) → x < m → ((x + 1) % m + m - 1) % m ≡ x
up_down x m h = grind arith

-- Turning round and stepping leads back: from every place on the map, in every direction.
pub step_ahead-back :
    (b : Board) (pos : Position) (d : Direction)
    → InMap b pos
    → step_ahead b (step_ahead b pos d) (turn_right (turn_right d)) ≡ pos
unfolding step_ahead turn_right
step_ahead-back b pos north h = rw (down_up pos.y b.map_y h.1)
step_ahead-back b pos east h = rw (up_down pos.x b.map_x h.0)
step_ahead-back b pos south h = rw (up_down pos.y b.map_y h.1)
step_ahead-back b pos west h = rw (down_up pos.x b.map_x h.0)
