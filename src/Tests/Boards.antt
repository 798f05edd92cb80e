-- ===== src/Tests/Boards.antt =====
-- The theorems on the lists of the tiles, at the map with three players.
use zappy.Prelude.{refl, ◌≡◌, true, some, [], ◌∷◌, error, arith}
use zappy.Board.{add_player_to_tile, move_player, step_ahead}
use zappy.Board.View.{Represents}
use zappy.Board.Move.{moved, move-Represents}
use zappy.Game.Expulse.{command_expulse, expulse_loop, expel}
use zappy.Game.Expulse.Spin.{command_expulse-hangs}
use zappy.Game.Expulse.Single.{expulse_loop-pushes_one}
use zappy.Tests.Fixtures.{at, crowd, crowd_view, crowd-Represents, world}

-- Player 0 leaves the middle tile for the one in the north, where 2 stands.
move-Represents_example :
    Represents (move_player crowd 0 (at 1 0)) (moved crowd crowd_view 0 (at 1 0))
unfolding add_player_to_tile
move-Represents_example =
    move-Represents crowd crowd_view 0 (at 1 0) crowd-Represents (ground arith) (ground arith)

-- Player 0 pushes 1 towards 2.
command_expulse-hangs_example : command_expulse world 0 ≡ (error, record world { hung = true })
unfolding add_player_to_tile step_ahead
command_expulse-hangs_example =
    command_expulse-hangs world 0 crowd_view 1 2 [] [] crowd-Represents (ground arith) refl
      (ground arith) refl (ground arith) (ground arith)

-- Player 0 pushes 1 towards the empty tile in the east.
expulse_loop-pushes_one_example :
    (expulse_loop 4 world 0 (at 2 1) (some 1) ≡ some (expel world 0 (at 2 1) 1))
    × Represents (expel world 0 (at 2 1) 1).board (moved crowd crowd_view 1 (at 2 1))
    × (moved crowd crowd_view 1 (at 2 1) 5 ≡ 1 ∷ [])
    × (moved crowd crowd_view 1 (at 2 1) 4 ≡ 0 ∷ [])
unfolding add_player_to_tile
expulse_loop-pushes_one_example =
    expulse_loop-pushes_one 3 world 0 (at 2 1) crowd_view 1 crowd-Represents (ground arith)
      (ground arith) (ground arith) refl (ground arith)
