-- ===== src/Game/Spawn/Growth.antt =====
-- What `m_game_spawn_resources` does to the map.
use zappy.Prelude.{
  ℕ, zero, suc, ◌+◌, ◌*◌, ◌%◌, ◌≤◌, ◌<◌, ◌≡◌, refl, sym, ◌∙◌, subst, inl, inr, false, ltb, Option,
  String, success, arith, Bool-cases, ==_self, ==_ne, ℕ-cases,
}
use zappy.Board.{Board, Inventory}
use zappy.Game.{World}
use zappy.Game.Items.{
  Item, nourriture, linemate, deraumere, sibur, mendiane, phiras, thystame, amount,
}
use zappy.Game.Init.Empty.{board-draw_inventory}
use zappy.Game.Spawn.{
  draw_inventory, inventory_sum, add_items, batch_size, visited, spawn_on, spawn_loop, advance,
  reschedule_spawn, game_spawn_resources, put_items,
}

-- A board that has got resources: the players and the lists are the same, no tile has less of
-- anything, and a tile with more than fifteen resources has got none.
pub record Enriched (b b' : Board) : Type 0 where
  pub width : b'.map_x ≡ b.map_x
  pub height : b'.map_y ≡ b.map_y
  pub players : b'.player_at ≡ b.player_at
  pub first : (i : ℕ) → (b'.tile_at i).players ≡ (b.tile_at i).players
  pub pos : (i : ℕ) → (b'.tile_at i).pos ≡ (b.tile_at i).pos
  pub more : (i : ℕ) (j : Item) → amount j (b.tile_at i).items ≤ amount j (b'.tile_at i).items
  pub rich : (i : ℕ) → 15 < inventory_sum (b.tile_at i).items → b'.tile_at i ≡ b.tile_at i

Enriched-refl : (b : Board) → Enriched b b
Enriched-refl b = record {
  width = refl;
  height = refl;
  players = refl;
  first = λ i. refl;
  pos = λ i. refl;
  more = λ i j. omega arith;
  rich = λ i h. refl;
}

Enriched-trans : (a b c : Board) → Enriched a b → Enriched b c → Enriched a c
Enriched-trans a b c u v = record {
  width = v.width ∙ u.width;
  height = v.height ∙ u.height;
  players = v.players ∙ u.players;
  first = λ i. v.first i ∙ u.first i;
  pos = λ i. v.pos i ∙ u.pos i;
  more = λ i j. omega (arith, u.more i j, v.more i j);
  rich =
      λ i h. v.rich i (subst (λ t. 15 < inventory_sum t.items) (sym (u.rich i h)) h) ∙ u.rich i h;
}

amount-add_items : (j : Item) (a b : Inventory) → amount j a ≤ amount j (add_items a b)
amount-add_items nourriture a b = omega arith
amount-add_items linemate a b = omega arith
amount-add_items deraumere a b = omega arith
amount-add_items sibur a b = omega arith
amount-add_items mendiane a b = omega arith
amount-add_items phiras a b = omega arith
amount-add_items thystame a b = omega arith

put_items-Enriched :
    (w : World) (i : ℕ) (fresh : Inventory)
    → ltb 15 (inventory_sum (w.tile_at i).items) ≡ false
    → Enriched w.board (put_items w i (add_items (w.tile_at i).items fresh)).board
put_items-Enriched w i fresh poor = record {
  width = refl;
  height = refl;
  players = refl;
  first = λ k. ground arith;
  pos = λ k. ground arith;
  more = λ k j. elim (ℕ-cases i k) [
    | inl here ↦ rw (← here, ==_self i) (amount-add_items j (w.tile_at i).items fresh)
    | inr other ↦ rw (==_ne i k other) (omega arith)
  ];
  rich = λ k h. elim (ℕ-cases i k) [
    | inl here ↦
        let rich : 15 < inventory_sum (w.tile_at i).items = rw here h in absurd (ground arith)
    | inr other ↦ rw (==_ne i k other) refl
  ];
}

spawn_on-Enriched : (w : World) (i : ℕ) → Enriched w.board (spawn_on w i).board
unfolding spawn_on
spawn_on-Enriched w i = elim (Bool-cases (ltb 15 (inventory_sum (w.tile_at i).items))) [
  | inl rich ↦ rw rich (Enriched-refl w.board)
  | inr poor ↦
      rw (poor, board-draw_inventory w w.ctx)
        (put_items-Enriched w i (draw_inventory w w.ctx).0 poor)
]

spawn_loop-Enriched : (w : World) (n i : ℕ) → Enriched w.board (spawn_loop w n i).board
unfolding spawn_loop
spawn_loop-Enriched w zero i = Enriched-refl w.board
spawn_loop-Enriched w (suc n) i =
    let k = visited w ((w.ctx.next_idx + i) % (w.map_x * w.map_y)) in
    Enriched-trans w.board (spawn_on w k).board _ (spawn_on-Enriched w k)
      (spawn_loop-Enriched (spawn_on w k) n (i + 1))

-- `m_game_spawn_resources`: it always succeeds; the players, the lists of the tiles and their
-- places are the same, no tile has less of anything than before, and a tile that had more than
-- fifteen resources has got none. On a map that is not empty the index of the next tile to visit
-- lies on the map afterwards.
pub spawn_resources-Enriched :
    (w : World) (payload : Option ℕ) (arg : Option String)
    → let (status, w') = game_spawn_resources w payload arg in
      (status ≡ success)
      × Enriched w.board w'.board
      × (0 < w.map_x * w.map_y → w'.ctx.next_idx < w.map_x * w.map_y)
unfolding game_spawn_resources advance reschedule_spawn
spawn_resources-Enriched w payload arg =
    let e = spawn_loop-Enriched w (batch_size (w.map_x * w.map_y)) 0 in
    (refl, e, λ h. rw (e.width, e.height) (omega (arith, h)))
