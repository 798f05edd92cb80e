-- ===== src/Game/Expulse/Single.antt =====
-- Where the tile in front is empty, `expulse` pushes one player and then stops.
use zappy.Prelude.{ℕ, suc, ◌≡◌, ◌≢◌, subst, true, none, some, List, [], ◌∷◌}
use zappy.Board.{Board, Position, map_index, move_player}
use zappy.Board.Chain.{Chain, elem, remove}
use zappy.Board.View.{Represents, InMap, tile_of}
use zappy.Board.Move.{moved, move-Represents, move-SamePlayers}
use zappy.Game.{World}
use zappy.Game.Expulse.{expel, expulse_loop}
use zappy.Game.Expulse.Spin.{board-expel, loop-step, moved_across}

next_of_only :
    (b : Board) (occ : ℕ → List ℕ) (i x : ℕ)
    → Represents b occ
    → occ i ≡ x ∷ []
    → (b.player_at x).next_on_tile ≡ none
next_of_only b occ i x v e = (subst (Chain b.player_at none (b.tile_at i).players) e (v.chain i)).2

-- If nobody stands on the tile in front, the loop that reaches a player `x` ends right behind it:
-- `x` alone is pushed, and the others of its list stay on their tile. Conditions: the lists are
-- right, the tiles differ, and `x` has not the id of the player that pushes.
pub expulse_loop-pushes_one :
    (fuel : ℕ) (w : World) (p : ℕ) (new : Position) (occ : ℕ → List ℕ) (x : ℕ)
    → Represents w.board occ
    → InMap w.board new
    → elem x (occ (tile_of w.board x)) ≡ true
    → tile_of w.board x ≢ map_index w.board new
    → occ (map_index w.board new) ≡ []
    → (w.player_at x).id ≢ (w.player_at p).id
    → (expulse_loop (suc fuel) w p new (some x) ≡ some (expel w p new x))
      × Represents (expel w p new x).board (moved w.board occ x new)
      × (moved w.board occ x new (map_index w.board new) ≡ x ∷ [])
      × (moved w.board occ x new (tile_of w.board x) ≡ remove x (occ (tile_of w.board x)))
unfolding expulse_loop
expulse_loop-pushes_one fuel w p new occ x v inside on far e nx =
    let same = move-SamePlayers w.board x new in
    let eb : (expel w p new x).board ≡ move_player w.board x new = board-expel w p new x nx in
    let v' : Represents (expel w p new x).board (moved w.board occ x new) =
      rw eb (move-Represents w.board occ x new v on inside) in
    let (there, left) = moved_across w.board occ new x [] far e in
    (
      rw (
        loop-step fuel w p new x,
        next_of_only (expel w p new x).board (moved w.board occ x new) (map_index w.board new) x v'
            there,
      ),
      v',
      there,
      left,
    )
