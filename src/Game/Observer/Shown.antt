-- ===== src/Game/Observer/Shown.antt =====
-- What the JSON view shows of the game, and when it can be built.
use zappy.Prelude.{ℕ, zero, suc, ◌+◌, ◌<◌, Option, none, some, List, [], ◌∷◌, ◌++◌, length}
use zappy.Board.{Position, map_index}
use zappy.Game.{World}
use zappy.Game.Observer.{Node, tile_node}

-- The places of a row from `x` on, and of the rows from `y` on, row by row.
abbrev pub row_places : ℕ → ℕ → ℕ → List Position
row_places y zero x = []
row_places y (suc n) x = record { x = x; y = y } ∷ row_places y n (x + 1)

abbrev pub places : ℕ → ℕ → ℕ → List Position
places width zero y = []
places width (suc n) y = row_places y width 0 ++ places width n (y + 1)

abbrev pub with_player : Option ℕ → List ℕ → List ℕ
with_player none rest = rest
with_player (some p) rest = p ∷ rest

-- The players on the slots, in order, of those clients that have one.
abbrev pub playing : World → List ℕ → List ℕ
playing w [] = []
playing w (c ∷ cs) = with_player (w.client_at c).player (playing w cs)

-- What is shown of the tile at a place, whose players are given by a view of the map.
abbrev pub shown_tile : World → (ℕ → List ℕ) → Position → Node
shown_tile w occ q = let i = map_index w.board q in tile_node w.board (w.tile_at i) (occ i)

-- The fuel suffices for the list of players of each tile.
abbrev pub Short : World → (ℕ → List ℕ) → Type 0
Short w occ = (i : ℕ) → length (occ i) < suc w.next_ptr
