-- ===== src/Board.antt =====
-- The map, its tiles and the players that stand on them: the structures of
-- server/srcs/game/game_structs.h and the tile functions of server/srcs/game/game.c.
-- A pointer to a player is a number, `player_at` is the memory that it points into, and a null
-- pointer is `none`. The array of tiles is the function `tile_at` of the index.
pub mod Chain
pub mod Unlink
pub mod Relink
pub mod View
pub mod Leave
pub mod Enter
pub mod Move
use zappy.Prelude.{ℕ, ◌+◌, ◌-◌, ◌*◌, ◌%◌, ◌==◌, if◌then◌else◌, Option, none, some}

pub data Direction : Type 0 where
  north east south west : Direction

pub record Position : Type 0 where
  pub x : ℕ
  pub y : ℕ

-- The counters are C `int`s that the code never lets fall below 0.
pub record Inventory : Type 0 where
  pub nourriture : ℕ
  pub linemate : ℕ
  pub deraumere : ℕ
  pub sibur : ℕ
  pub mendiane : ℕ
  pub phiras : ℕ
  pub thystame : ℕ

pub record Player : Type 0 where
  pub id : ℕ
  pub team_id : ℕ
  pub level : ℕ
  pub pos : Position
  pub dir : Direction
  pub inv : Inventory
  pub die_time : ℕ
  pub start_time : ℕ
  pub next_on_tile : Option ℕ
  pub prev_on_tile : Option ℕ

pub record Tile : Type 0 where
  pub pos : Position
  pub items : Inventory
  pub players : Option ℕ

-- The fields `map_x`, `map_y` and `map` of `server`, and the memory of the players.
pub record Board : Type 0 where
  pub map_x : ℕ
  pub map_y : ℕ
  pub tile_at : ℕ → Tile
  pub player_at : ℕ → Player

-- A write to memory.
abbrev pub update {ℓ} : {A : Type ℓ} → (ℕ → A) → ℕ → A → ℕ → A
update f p v q = if p == q then v else f q

-- `MAP(x,y)`: the index of a tile.
abbrev pub map_index : Board → Position → ℕ
map_index b pos = pos.y * b.map_x + pos.x

abbrev pub set_player : Board → ℕ → Player → Board
set_player b p v = record b { player_at = update b.player_at p v }

abbrev pub set_tile : Board → ℕ → Tile → Board
set_tile b i v = record b { tile_at = update b.tile_at i v }

-- `if (q) q->prev_on_tile = v`
abbrev pub set_prev : Board → Option ℕ → Option ℕ → Board
set_prev b none v = b
set_prev b (some q) v = set_player b q (record (b.player_at q) { prev_on_tile = v })

unfoldable pub add_player_to_tile : Board → ℕ → ℕ → Board
add_player_to_tile b i p =
    let t = b.tile_at i in
    let b₁ =
      set_player b p (record (b.player_at p) { next_on_tile = t.players; prev_on_tile = none }) in
    let b₂ = set_prev b₁ t.players (some p) in
    let b₃ = set_tile b₂ i (record t { players = some p }) in
    set_player b₃ p (record (b₃.player_at p) { pos = t.pos })

-- The first test of `m_game_remove_player_from_tile`: `t->players` is written where the player
-- has none before it.
abbrev pub skip_player : Board → ℕ → Option ℕ → Option ℕ → Board
skip_player b i none n = set_tile b i (record (b.tile_at i) { players = n })
skip_player b i (some q) n = set_player b q (record (b.player_at q) { next_on_tile = n })

unfoldable pub remove_player_from_tile : Board → ℕ → Board
remove_player_from_tile b p =
    let i = map_index b (b.player_at p).pos in
    let b₁ = skip_player b i (b.player_at p).prev_on_tile (b.player_at p).next_on_tile in
    let b₂ = set_prev b₁ (b₁.player_at p).next_on_tile (b₁.player_at p).prev_on_tile in
    set_player b₂ p (record (b₂.player_at p) { next_on_tile = none; prev_on_tile = none })

unfoldable pub move_player : Board → ℕ → Position → Board
unfolding add_player_to_tile remove_player_from_tile
move_player b p new =
    let b₁ = remove_player_from_tile b p in
    let b₂ = set_player b₁ p (record (b₁.player_at p) { pos = new }) in
    add_player_to_tile b₂ (map_index b₂ new) p

-- The tile in front of a player, on a map without edges.
unfoldable pub step_ahead : Board → Position → Direction → Position
step_ahead b pos north = record pos { y = (pos.y + b.map_y - 1) % b.map_y }
step_ahead b pos east = record pos { x = (pos.x + 1) % b.map_x }
step_ahead b pos south = record pos { y = (pos.y + 1) % b.map_y }
step_ahead b pos west = record pos { x = (pos.x + b.map_x - 1) % b.map_x }
