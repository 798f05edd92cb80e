-- ===== src/Board/Move.antt =====
-- `m_game_move_player` takes a player from the list of one tile to the front of another.
use zappy.Prelude.{refl, ◌∙◌, ℕ, ◌+◌, ◌*◌, ◌≡◌, true, List, arith, subst}
use zappy.Board.{
  Board, Position, Direction, north, east, south, west, map_index, set_player,
  remove_player_from_tile, add_player_to_tile, move_player, step_ahead,
}
use zappy.Board.Chain.{elem}
use zappy.Board.Unlink.{width-remove, height-remove}
use zappy.Board.View.{tile_of, take_off, put_first, Represents, InMap}
use zappy.Board.Leave.{remove-Represents, remove-absent}
use zappy.Board.Enter.{add-Represents, write-Represents}

-- The view after a move: the player leaves its list and comes first on the new tile, which may be
-- the tile that it left.
abbrev pub moved : Board → (ℕ → List ℕ) → ℕ → Position → ℕ → List ℕ
moved b occ p new = put_first (take_off occ (tile_of b p) p) (map_index b new) p

-- A player that stands on its tile is moved to the front of the list at `new`, for every position
-- on the map; every other player keeps its place, and every link of every list is right
-- afterwards.
pub move-Represents :
    (b : Board) (occ : ℕ → List ℕ) (p : ℕ) (new : Position)
    → Represents b occ
    → elem p (occ (tile_of b p)) ≡ true
    → InMap b new
    → Represents (move_player b p new) (moved b occ p new)
unfolding move_player
move-Represents b occ p new v e inside =
    let b₁ = remove_player_from_tile b p in
    let w = record (b₁.player_at p) { pos = new } in
    let left = take_off occ (tile_of b p) p in
    let gone = remove-absent b occ p v e in
    subst
      (λ k.
        Represents (add_player_to_tile (set_player b₁ p w) (new.y * b₁.map_x + new.x) p)
          (put_first left (new.y * k + new.x) p))
      (width-remove b p)
      (add-Represents (set_player b₁ p w) left new p
        (write-Represents b₁ left p (remove-Represents b occ p v e) gone w) gone
        (rw (width-remove b p, height-remove b p) inside))

-- The tile in front of a player on the map is on the map.
pub step_ahead-InMap :
    (b : Board) (pos : Position) (d : Direction) → InMap b pos → InMap b (step_ahead b pos d)
unfolding step_ahead
step_ahead-InMap b pos north h = grind arith
step_ahead-InMap b pos east h = grind arith
step_ahead-InMap b pos south h = grind arith
step_ahead-InMap b pos west h = grind arith

-- What a move leaves alone.
pub record SamePlayers (b b' : Board) : Type 0 where
  pub width : b'.map_x ≡ b.map_x
  pub height : b'.map_y ≡ b.map_y
  pub id : (q : ℕ) → (b'.player_at q).id ≡ (b.player_at q).id
  pub level : (q : ℕ) → (b'.player_at q).level ≡ (b.player_at q).level
  pub team_id : (q : ℕ) → (b'.player_at q).team_id ≡ (b.player_at q).team_id
  pub dir : (q : ℕ) → (b'.player_at q).dir ≡ (b.player_at q).dir
  pub inv : (q : ℕ) → (b'.player_at q).inv ≡ (b.player_at q).inv
  pub items : (i : ℕ) → (b'.tile_at i).items ≡ (b.tile_at i).items

pub remove-SamePlayers : (b : Board) (p : ℕ) → SamePlayers b (remove_player_from_tile b p)
unfolding remove_player_from_tile
remove-SamePlayers b p = record {
  width = ground arith;
  height = ground arith;
  id = λ q. ground arith;
  level = λ q. ground arith;
  team_id = λ q. ground arith;
  dir = λ q. ground arith;
  inv = λ q. ground arith;
  items = λ i. ground arith;
}

pub add-SamePlayers : (b : Board) (i p : ℕ) → SamePlayers b (add_player_to_tile b i p)
unfolding add_player_to_tile
add-SamePlayers b i p = record {
  width = ground arith;
  height = ground arith;
  id = λ q. ground arith;
  level = λ q. ground arith;
  team_id = λ q. ground arith;
  dir = λ q. ground arith;
  inv = λ q. ground arith;
  items = λ j. ground arith;
}

repos-SamePlayers :
    (b : Board) (p : ℕ) (new : Position)
    → SamePlayers b (set_player b p (record (b.player_at p) { pos = new }))
repos-SamePlayers b p new = record {
  width = refl;
  height = refl;
  id = λ q. ground arith;
  level = λ q. ground arith;
  team_id = λ q. ground arith;
  dir = λ q. ground arith;
  inv = λ q. ground arith;
  items = λ i. refl;
}

SamePlayers-trans : (a b c : Board) → SamePlayers a b → SamePlayers b c → SamePlayers a c
SamePlayers-trans a b c u v = record {
  width = v.width ∙ u.width;
  height = v.height ∙ u.height;
  id = λ q. v.id q ∙ u.id q;
  level = λ q. v.level q ∙ u.level q;
  team_id = λ q. v.team_id q ∙ u.team_id q;
  dir = λ q. v.dir q ∙ u.dir q;
  inv = λ q. v.inv q ∙ u.inv q;
  items = λ i. v.items i ∙ u.items i;
}

-- A move changes no player but in its place, no tile but in its list, and not the map.
pub move-SamePlayers : (b : Board) (p : ℕ) (new : Position) → SamePlayers b (move_player b p new)
unfolding move_player
move-SamePlayers b p new =
    let b₁ = remove_player_from_tile b p in
    let b₂ = set_player b₁ p (record (b₁.player_at p) { pos = new }) in
    SamePlayers-trans b b₁ _ (remove-SamePlayers b p) (
      SamePlayers-trans b₁ b₂ _ (repos-SamePlayers b₁ p new)
        (add-SamePlayers b₂ (map_index b₂ new) p))
