-- ===== src/Board/Unlink.antt =====
-- What `m_game_remove_player_from_tile` and `m_game_add_player_to_tile` write, field by field.
use zappy.Prelude.{ℕ, ◌≡◌, ◌≢◌, Bool, false, ◌==◌, if◌then◌else◌, Option, none, some, arith}
use zappy.Board.{map_index, add_player_to_tile, Board, remove_player_from_tile}

-- The link is to this player.
abbrev pub points : Option ℕ → ℕ → Bool
points none q = false
points (some p) q = p == q

module _ (b : Board) (p : ℕ) where
  -- A player's links after `p` was taken out.
  pub next-remove :
      (q : ℕ)
      → (b.player_at p).next_on_tile ≢ some p
      → (b.player_at p).prev_on_tile ≢ some p
      → ((remove_player_from_tile b p).player_at q).next_on_tile ≡ (
          if p == q
          then none
          else if points (b.player_at p).prev_on_tile q
          then (b.player_at p).next_on_tile
          else (b.player_at q).next_on_tile)
  unfolding remove_player_from_tile
  next-remove q n r = ground arith

  pub prev-remove :
      (q : ℕ)
      → (b.player_at p).next_on_tile ≢ some p
      → (b.player_at p).prev_on_tile ≢ some p
      → ((remove_player_from_tile b p).player_at q).prev_on_tile ≡ (
          if p == q
          then none
          else if points (b.player_at p).next_on_tile q
          then (b.player_at p).prev_on_tile
          else (b.player_at q).prev_on_tile)
  unfolding remove_player_from_tile
  prev-remove q n r = ground arith

  pub pos-remove : (q : ℕ) → ((remove_player_from_tile b p).player_at q).pos ≡ (b.player_at q).pos
  unfolding remove_player_from_tile
  pos-remove q = ground arith

  -- The lists of the tiles: the one of the player's own tile starts behind it if it was first.
  pub players-remove :
      (i : ℕ)
      → ((remove_player_from_tile b p).tile_at i).players ≡ (
          if map_index b (b.player_at p).pos == i
          then elim (b.player_at p).prev_on_tile [
            | none ↦ (b.player_at p).next_on_tile
            | some q ↦ (b.tile_at i).players
          ]
          else (b.tile_at i).players)
  unfolding remove_player_from_tile
  players-remove i = ground arith

  pub tile_pos-remove : (i : ℕ) → ((remove_player_from_tile b p).tile_at i).pos ≡ (b.tile_at i).pos
  unfolding remove_player_from_tile
  tile_pos-remove i = ground arith

  pub width-remove : (remove_player_from_tile b p).map_x ≡ b.map_x
  unfolding remove_player_from_tile
  width-remove = ground arith

  pub height-remove : (remove_player_from_tile b p).map_y ≡ b.map_y
  unfolding remove_player_from_tile
  height-remove = ground arith

module _ (b : Board) (i p : ℕ) where
  pub next-add :
      (q : ℕ)
      → (b.tile_at i).players ≢ some p
      → ((add_player_to_tile b i p).player_at q).next_on_tile
        ≡ (if p == q then (b.tile_at i).players else (b.player_at q).next_on_tile)
  unfolding add_player_to_tile
  next-add q n = ground arith

  pub prev-add :
      (q : ℕ)
      → (b.tile_at i).players ≢ some p
      → ((add_player_to_tile b i p).player_at q).prev_on_tile ≡ (
          if p == q
          then none
          else if points (b.tile_at i).players q
          then some p
          else (b.player_at q).prev_on_tile)
  unfolding add_player_to_tile
  prev-add q n = ground arith

  pub pos-add :
      (q : ℕ)
      → ((add_player_to_tile b i p).player_at q).pos
        ≡ (if p == q then (b.tile_at i).pos else (b.player_at q).pos)
  unfolding add_player_to_tile
  pos-add q = ground arith

  pub players-add :
      (j : ℕ)
      → ((add_player_to_tile b i p).tile_at j).players
        ≡ (if i == j then some p else (b.tile_at j).players)
  unfolding add_player_to_tile
  players-add j = ground arith

  pub tile_pos-add : (j : ℕ) → ((add_player_to_tile b i p).tile_at j).pos ≡ (b.tile_at j).pos
  unfolding add_player_to_tile
  tile_pos-add j = ground arith

  pub width-add : (add_player_to_tile b i p).map_x ≡ b.map_x
  unfolding add_player_to_tile
  width-add = ground arith

  pub height-add : (add_player_to_tile b i p).map_y ≡ b.map_y
  unfolding add_player_to_tile
  height-add = ground arith
