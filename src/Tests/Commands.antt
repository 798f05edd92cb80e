-- ===== src/Tests/Commands.antt =====
-- The theorems on the commands, at the world with three players.
use zappy.Prelude.{◌≡◌, ◌≤◌, ◌⊎◌, true, some, [], ◌∷◌, arith}
use zappy.Board.Chain.{elem}
use zappy.Board.View.{InMap}
use zappy.Game.Items.{command_prend, command_pose}
use zappy.Game.Items.Conserve.{Exchanges, prend_pose-Exchanges}
use zappy.Game.Incantation.{level_max, end_incantation}
use zappy.Game.Incantation.Levels.{level_of, level-end_incantation}
use zappy.Game.Vision.{seen}
use zappy.Game.Vision.Places.{All, seen-InMap}
use zappy.Tests.Fixtures.{player_named, empty_board, world}

prend_pose-Exchanges_example :
    Exchanges world.board (command_prend world 1 (some "linemate")).1.board 1
    × Exchanges world.board (command_pose world 1 (some "linemate")).1.board 1
prend_pose-Exchanges_example = prend_pose-Exchanges world 1 (some "linemate")

level-end_incantation_example :
    let after = level_of (end_incantation world 0 1 (0 ∷ 1 ∷ [])).1 1 in
    ((after ≡ level_of world 1)
      ⊎ ((after ≡ 2) × (level_of world 1 ≡ 1) × (elem 1 (0 ∷ 1 ∷ []) ≡ true)))
    × (level_of world 1 ≤ level_max → after ≤ level_max)
level-end_incantation_example = level-end_incantation world 0 1 (0 ∷ 1 ∷ []) 1 (ground arith)

seen-InMap_example : All (InMap empty_board) (seen empty_board (player_named 10 2))
seen-InMap_example = seen-InMap empty_board (player_named 10 2) (omega arith) (omega arith)
