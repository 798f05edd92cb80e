-- ===== src/Game/Vision.antt =====
-- `voir`: the tiles that a player sees, and what it is told of each.
pub mod Places
use zappy.Prelude.{
  ℕ, zero, suc, ◌+◌, ◌-◌, ◌*◌, ◌%◌, ◌==◌, ltb, if◌then◌else◌, Bool, true, false, none, some, List,
  [], ◌∷◌, ◌++◌, map, String, Status, success,
}
use zappy.Prelude.Int.{ℤ, pos, negsuc, sub_ℕ}
use zappy.Board.{Board, Direction, north, east, south, west, Position, Player, Tile, map_index}
use zappy.Game.{World, vision, send}

-- `wrap`: C's remainder has the sign of the dividend.
unfoldable pub wrap : ℤ → ℕ → ℕ
wrap (pos n) m = n % m
wrap (negsuc n) m = if suc n % m == 0 then 0 else m - suc n % m

-- The switch of `m_command_voir`: the `i`-th place of the row at distance `d`, before `wrap`.
abbrev pub rel_x : Direction → Position → ℕ → ℕ → ℤ
rel_x north p d i = sub_ℕ (p.x + i) d
rel_x east p d i = pos (p.x + d)
rel_x south p d i = sub_ℕ (p.x + d) i
rel_x west p d i = sub_ℕ p.x d

abbrev pub rel_y : Direction → Position → ℕ → ℕ → ℤ
rel_y north p d i = sub_ℕ p.y d
rel_y east p d i = sub_ℕ (p.y + i) d
rel_y south p d i = pos (p.y + d)
rel_y west p d i = sub_ℕ (p.y + d) i

unfoldable pub seen_place : Board → Direction → Position → ℕ → ℕ → Position
unfolding wrap
seen_place b dir p d i = record {
  x = wrap (rel_x dir p d i) b.map_x;
  y = wrap (rel_y dir p d i) b.map_y;
}

-- `for (i = 0; i < width; i++)` with `n` rounds left.
pub seen_row : Board → Direction → Position → ℕ → ℕ → ℕ → List Position
seen_row b dir p d zero i = []
seen_row b dir p d (suc n) i = seen_place b dir p d i ∷ seen_row b dir p d n (i + 1)

-- `for (d = 0; d <= lvl; d++)` with `n` rounds left.
pub seen_rows : Board → Direction → Position → ℕ → ℕ → List Position
seen_rows b dir p zero d = []
seen_rows b dir p (suc n) d = seen_row b dir p d (2 * d + 1) 0 ++ seen_rows b dir p n (d + 1)

-- The places that a player sees, in the order of the answer.
unfoldable pub seen : Board → Player → List Position
unfolding seen_rows seen_row
seen b pl = seen_rows b pl.dir pl.pos (pl.level + 1) 0

abbrev pub only_if : Bool → String → List String → List String
only_if b s rest = if b then s ∷ rest else rest

-- `T->players && T->players->id != p->id && p->next_on_tile != NULL`
unfoldable pub shows_player : Board → Tile → Player → Bool
shows_player b t p = elim t.players [
  | none ↦ false
  | some q ↦
      if (b.player_at q).id == p.id
      then false
      else elim p.next_on_tile [ none ↦ false | some _ ↦ true ]
]

unfoldable pub build_tile_vision : Board → Tile → Player → List String
unfolding shows_player
build_tile_vision b t p = only_if (shows_player b t p) "player" (
    only_if (ltb 0 t.items.nourriture) "nourriture" (
      only_if (ltb 0 t.items.linemate) "linemate" (
        only_if (ltb 0 t.items.deraumere) "deraumere" (
          only_if (ltb 0 t.items.sibur) "sibur" (
            only_if (ltb 0 t.items.mendiane) "mendiane" (
              only_if (ltb 0 t.items.phiras) "phiras"
                (only_if (ltb 0 t.items.thystame) "thystame" [])))))))

unfoldable pub command_voir : World → ℕ → Status × World
unfolding seen build_tile_vision
command_voir w p =
    let pl = w.player_at p in
    let look = λ (q : Position). build_tile_vision w.board (w.tile_at (map_index w.board q)) pl in
    (success, send w (vision pl.id (map look (seen w.board pl))))
