-- ===== src/Game/Init/Empty.antt =====
-- The map that `game_init_map` lays out: every tile knows its place, and nobody stands on it.
use zappy.Prelude.{
  String, List, sym, ap, ℕ, zero, suc, ◌+◌, ◌*◌, ◌≤◌, ◌<◌, ◌≡◌, refl, ◌∙◌, ◌⊎◌, inl, inr, ◌==◌,
  none, [], arith, Bool-cases, Option-cases, ==→eq, ==_self, ℕ-cases, subst, false,
}
use zappy.Board.{Board, Position, Tile, map_index, set_tile}
use zappy.Board.View.{Represents, InMap}
use zappy.Game.{World, SpawnCtx, incantation}
use zappy.Game.Spawn.{random_resource_count, draw_inventory, count_draws}
use zappy.Game.Init.{
  Settings, lay_tile, lay_column, lay_columns, game_init_map, game_init, cleared, no_delay,
}

board-random_resource_count :
    (w : World) (lambda : ℕ) → (random_resource_count w lambda).1.board ≡ w.board
unfolding random_resource_count
board-random_resource_count w lambda =
    let m = w.machine in
    elim (Option-cases (count_draws m m.patience (m.exp_neg lambda) m.one w.rand_calls 0)) [
      | inl e ↦ rw (e, random_resource_count)
      | inr (r, e) ↦ rw (e, random_resource_count)
    ]

pub board-draw_inventory : (w : World) (d : SpawnCtx) → (draw_inventory w d).1.board ≡ w.board
unfolding draw_inventory
board-draw_inventory w d =
    let w₁ = (random_resource_count w d.d_nourriture).1 in
    let w₂ = (random_resource_count w₁ d.d_linemate).1 in
    let w₃ = (random_resource_count w₂ d.d_deraumere).1 in
    let w₄ = (random_resource_count w₃ d.d_sibur).1 in
    let w₅ = (random_resource_count w₄ d.d_mendiane).1 in
    let w₆ = (random_resource_count w₅ d.d_phiras).1 in
    board-random_resource_count w₆ d.d_thystame
    ∙ board-random_resource_count w₅ d.d_phiras
    ∙ board-random_resource_count w₄ d.d_mendiane
    ∙ board-random_resource_count w₃ d.d_sibur
    ∙ board-random_resource_count w₂ d.d_deraumere
    ∙ board-random_resource_count w₁ d.d_linemate
    ∙ board-random_resource_count w d.d_nourriture

row_le : (y y' m : ℕ) → y < y' → y * m + m ≤ y' * m
row_le y y' m h = grind arith

row_unique : (x x' y y' m : ℕ) → x < m → x' < m → y * m + x ≡ y' * m + x' → (x ≡ x') × (y ≡ y')
row_unique x x' y y' m h h' e = ground (arith, row_le y y' m, row_le y' y m)

-- The tiles of the columns before `i`, and of column `i` those before row `j`, know their place.
record Laid (b : Board) (i j : ℕ) : Type 0 where
  placed :
      (pos : Position)
      → InMap b pos
      → (pos.x < i) ⊎ ((pos.x ≡ i) × (pos.y < j))
      → (b.tile_at (map_index b pos)).pos ≡ pos
  empty : (k : ℕ) → (b.tile_at k).players ≡ none

before_other :
    (b : Board) (i j : ℕ) (pos : Position)
    → (j * b.map_x + i == map_index b pos) ≡ false
    → (pos.x < i) ⊎ ((pos.x ≡ i) × (pos.y < j + 1))
    → (pos.x < i) ⊎ ((pos.x ≡ i) × (pos.y < j))
before_other b i j pos other (inl left) = inl left
before_other b i j pos other (inr (ex, up)) = elim (ℕ-cases pos.y j) [
  | inl ey ↦
      let differ : (j * b.map_x + i == j * b.map_x + i) ≡ false = rw (ex, ey) at other in
      absurd (ground (arith, ==_self (j * b.map_x + i), differ))
  | inr ne ↦ inr (ex, omega arith)
]

-- One more tile.
set_tile-Laid :
    (b : Board) (t : Tile) (i j : ℕ)
    → i < b.map_x
    → t.pos ≡ (record { x = i; y = j })
    → t.players ≡ none
    → Laid b i j
    → Laid (set_tile b (j * b.map_x + i) t) i (j + 1)
set_tile-Laid b t i j h e n l = record {
  placed = λ pos inside before. elim (Bool-cases (j * b.map_x + i == map_index b pos)) [
    | inl here ↦
        let (ex, ey) = row_unique i pos.x j pos.y b.map_x h inside.0 (==→eq _ _ here) in
        rw here (e ∙ rw (ex, ey) refl)
    | inr other ↦ rw other (l.placed pos inside (before_other b i j pos other before))
  ];
  empty = λ k. elim (Bool-cases (j * b.map_x + i == k)) [
    | inl here ↦ rw here n
    | inr other ↦ rw other (l.empty k)
  ];
}

-- The next column begins where one ends.
column-Laid : (b : Board) (i : ℕ) → Laid b i b.map_y → Laid b (i + 1) 0
column-Laid b i l = record {
  placed = λ pos inside before. l.placed pos inside (omega arith);
  empty = l.empty;
}

record Grows (b b' : Board) (i j : ℕ) : Type 0 where
  laid : Laid b' i j
  width : b'.map_x ≡ b.map_x
  height : b'.map_y ≡ b.map_y

Grows-trans : (a b c : Board) (i i' j j' : ℕ) → Grows a b i j → Grows b c i' j' → Grows a c i' j'
Grows-trans a b c i i' j j' u v = record {
  laid = v.laid;
  width = v.width ∙ u.width;
  height = v.height ∙ u.height;
}

lay_tile-Grows :
    (w : World) (d : SpawnCtx) (i j : ℕ)
    → i < w.map_x
    → Laid w.board i j
    → Grows w.board (lay_tile w d (record { x = i; y = j })).board i (j + 1)
unfolding lay_tile
lay_tile-Grows w d i j h l =
    rw (board-draw_inventory w d)
      (record { laid = set_tile-Laid w.board _ i j h refl refl l; width = refl; height = refl })

lay_column-Grows :
    (w : World) (d : SpawnCtx) (i n j : ℕ)
    → i < w.map_x
    → Laid w.board i j
    → Grows w.board (lay_column w d i n j).board i (j + n)
unfolding lay_column
lay_column-Grows w d i zero j h l =
    subst (λ k. Grows w.board w.board i k) (let e : j ≡ j + 0 = omega arith in e)
      (record { laid = l; width = refl; height = refl })
lay_column-Grows w d i (suc n) j h l =
    let one = lay_tile-Grows w d i j h l in
    let w' = lay_tile w d (record { x = i; y = j }) in
    let rest = lay_column-Grows w' d i n (j + 1) (rw one.width h) one.laid in
    subst (λ k. Grows w.board (lay_column w' d i n (j + 1)).board i k)
      (let e : j + 1 + n ≡ j + suc n = omega arith in e)
      (Grows-trans w.board w'.board _ i i (j + 1) (j + 1 + n) one rest)

lay_columns-Grows :
    (w : World) (d : SpawnCtx) (height n i : ℕ)
    → w.map_y ≡ height
    → i + n ≡ w.map_x
    → Laid w.board i 0
    → Grows w.board (lay_columns w d height n i).board (i + n) 0
unfolding lay_columns
lay_columns-Grows w d height zero i hy h l =
    subst (λ k. Grows w.board w.board k 0) (let e : i ≡ i + 0 = omega arith in e)
      (record { laid = l; width = refl; height = refl })
lay_columns-Grows w d height (suc n) i hy h l =
    let w' = lay_column w d i height 0 in
    let one = lay_column-Grows w d i height 0 (omega arith) l in
    let full : Laid w'.board i w'.map_y =
      subst (λ k. Laid w'.board i k)
        (let e : 0 + height ≡ w'.map_y = omega (arith, one.height, hy) in e) one.laid in
    let col : Grows w.board w'.board (i + 1) 0 = record {
      laid = column-Laid w'.board i full;
      width = one.width;
      height = one.height;
    } in
    let rest =
      lay_columns-Grows w' d height n (i + 1) (one.height ∙ hy) (omega (arith, one.width))
        col.laid in
    subst (λ k. Grows w.board (lay_columns w' d height n (i + 1)).board k 0)
      (let e : i + 1 + n ≡ i + suc n = omega arith in e)
      (Grows-trans w.board w'.board _ (i + 1) (i + 1 + n) 0 0 col rest)

-- What `game_init_map` does to cleared tiles.
game_init_map-Grows :
    (w : World) (s : Settings)
    → ((k : ℕ) → (w.tile_at k).players ≡ none)
    → Grows w.board (game_init_map w s w.map_x w.map_y).board (0 + w.map_x) 0
unfolding game_init_map
game_init_map-Grows w s clear =
    let start = record w { life_unit = s.life_unit; start_life_units = s.start_life_units } in
    lay_columns-Grows start s.initial_density w.map_y w.map_x 0 refl (omega arith)
      (record { placed = λ pos inside before. ground arith; empty = clear })

Laid-Represents : (b : Board) → Laid b (0 + b.map_x) 0 → Represents b (λ i. [])
Laid-Represents b l = record {
  chain = λ i. l.empty i;
  distinct = λ i. tt;
  placed = λ i p on. absurd (ground arith);
  tiles = λ pos inside. l.placed pos inside (inl (omega (arith, inside.0)));
}

-- `game_init`, with any settings, teams and sizes: the board that it leaves has the given width
-- and height, every tile knows its place, and nobody stands on the map.
pub game_init-Represents :
    (w : World) (s : Settings) (width height : ℕ) (teams : List String) (nb_clients nb_teams : ℕ)
    → let b = (game_init w s width height teams nb_clients nb_teams).1.board in
      Represents b (λ i. []) × (b.map_x ≡ width) × (b.map_y ≡ height)
unfolding game_init
game_init-Represents w s width height teams nb_clients nb_teams =
    let w₁ = record w { delays = no_delay s.delays; incantation_time = s.delays incantation } in
    let w₂ = cleared w₁ width height in
    let g = game_init_map-Grows w₂ s (λ k. refl) in
    let b = (game_init_map w₂ s width height).board in
    let all : Laid b (0 + b.map_x) 0 =
      subst (λ k. Laid b k 0) (ap (λ k. 0 + k) (sym g.width)) g.laid in
    let r = Laid-Represents b all in
    elim (Bool-cases s.respawn_resources) [
      | inl later ↦ rw later (r, g.width, g.height)
      | inr never ↦ rw never (r, g.width, g.height)
    ]
