-- ===== src/Game/Walk.antt =====
-- The loops of game.c that follow `next_on_tile` through a list of players.
use zappy.Prelude.{ℕ, zero, suc, ◌<◌, ◌≡◌, Option, none, some, List, [], ◌∷◌, arith, length}
use zappy.Board.{Player}
use zappy.Board.Chain.{Chain}

-- `for (p = first; p; p = p->next_on_tile)`, where the body writes no link: the players that it
-- meets. `none` means that the fuel ran out.
unfoldable pub walk : (ℕ → Player) → ℕ → Option ℕ → Option (List ℕ)
walk mem fuel none = some []
walk mem zero (some p) = none
walk mem (suc fuel) (some p) = elim (walk mem fuel (mem p).next_on_tile) [
  | none ↦ none
  | some ps ↦ some (p ∷ ps)
]

-- With fuel for each player the loop ends, and it meets the players of the list in order.
pub walk-Chain :
    (mem : ℕ → Player) (prev first : Option ℕ) (ps : List ℕ) (fuel : ℕ)
    → Chain mem prev first ps
    → length ps < suc fuel
    → walk mem fuel first ≡ some ps
unfolding walk
walk-Chain mem prev first [] fuel c h = rw c
walk-Chain mem prev first (p ∷ ps) zero c h = absurd (omega arith)
walk-Chain mem prev first (p ∷ ps) (suc fuel) c h =
    rw (c.0, walk-Chain mem (some p) (mem p).next_on_tile ps fuel c.2 (omega arith))
