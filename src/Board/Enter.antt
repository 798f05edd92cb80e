-- ===== src/Board/Enter.antt =====
-- `m_game_add_player_to_tile` puts a player in front of a tile's list, and `m_game_move_player`
-- takes it from one list to the other.
use zappy.Prelude.{
  refl, ℕ, ◌≡◌, ◌≢◌, ap, inl, inr, true, false, ◌==◌, Option, none, some, List, [], ◌∷◌, arith,
  Bool-cases, ==_self, ==_ne, ==→eq,
}
use zappy.Board.{add_player_to_tile, set_player, Position, Board, Player, map_index, update}
use zappy.Board.Chain.{Chain, Distinct, SameLinks, elem, Chain-frame}
use zappy.Board.Unlink.{
  next-add, prev-add, pos-add, players-add, tile_pos-add, width-add, height-add,
}
use zappy.Board.Relink.{Chain-link_first, Chain-add_elsewhere, Outside}
use zappy.Board.View.{put_first, InMap, elsewhere, Represents, Outside-of}

first_absent :
    (mem : ℕ → Player) (first : Option ℕ) (p : ℕ) (qs : List ℕ)
    → Chain mem none first qs
    → elem p qs ≡ false
    → first ≢ some p
first_absent mem first p [] c e g = cc
first_absent mem first p (q ∷ qs) c e g = ground arith

first_in :
    (mem : ℕ → Player) (first : Option ℕ) (s : ℕ) (qs : List ℕ)
    → Chain mem none first qs
    → first ≡ some s
    → elem s qs ≡ true
first_in mem first s [] c e = cc
first_in mem first s (q ∷ qs) c e = ground arith

SameLinks-write :
    (mem : ℕ → Player) (p : ℕ) (w : Player) (qs : List ℕ)
    → elem p qs ≡ false
    → SameLinks mem (update mem p w) qs
SameLinks-write mem p w [] e = tt
SameLinks-write mem p w (q ∷ qs) e =
    let ne : (p == q) ≡ false = ground arith in
    (rw ne, rw ne, SameLinks-write mem p w qs (ground arith))

module _ (b : Board) (occ : ℕ → List ℕ) (pos : Position) (p : ℕ) (v : Represents b occ)
    (absent : (j : ℕ) → elem p (occ j) ≡ false) (inside : InMap b pos) where
  abbrev there : ℕ
  there = map_index b pos

  abbrev with_first : ℕ → List ℕ
  with_first = put_first occ there p

  first_ne : (b.tile_at there).players ≢ some p
  first_ne = first_absent b.player_at _ p (occ there) (v.chain there) (absent there)

  first-Outside : (j : ℕ) → there ≢ j → Outside (b.tile_at there).players (occ j)
  first-Outside j ne =
      Outside-of (b.tile_at there).players (occ j) λ s h.
        elsewhere b occ there j s v (first_in b.player_at _ s (occ there) (v.chain there) h) ne

  Chain-add :
      (j : ℕ)
      → Chain
          (add_player_to_tile b there p).player_at
          none
          ((add_player_to_tile b there p).tile_at j).players
          (with_first j)
  Chain-add j = elim (Bool-cases (there == j)) [
    | inl eq ↦
        rw (players-add b there p j, eq)
          (
            refl,
            rw (prev-add b there p p first_ne, ==_self p),
            rw (next-add b there p p first_ne, ==_self p)
                (Chain-link_first b there p first_ne (occ there) (absent there) (v.distinct there)
                  (v.chain there)),
          )
    | inr far ↦
        rw (players-add b there p j, far)
          (Chain-add_elsewhere b there p first_ne (b.tile_at j).players (occ j) (absent j)
            (first-Outside j (λ h. ground arith)) (v.chain j))
  ]

  Distinct-add : (j : ℕ) → Distinct (with_first j)
  Distinct-add j = elim (Bool-cases (there == j)) [
    | inl eq ↦ rw eq (absent there, v.distinct there)
    | inr far ↦ rw far (v.distinct j)
  ]

  -- The old players of a list of the new view.
  mem-with_first :
      (j q : ℕ) → (p == q) ≡ false → elem q (with_first j) ≡ true → elem q (occ j) ≡ true
  mem-with_first j q ne m = elim (Bool-cases (there == j)) [
    | inl eq ↦ rw (← ==→eq there j eq) (rw ne at (rw eq at m))
    | inr far ↦ rw far at m
  ]

  self-with_first : (j : ℕ) → elem p (with_first j) ≡ true → there ≡ j
  self-with_first j m = elim (Bool-cases (there == j)) [
    | inl eq ↦ ==→eq there j eq
    | inr far ↦ cc (absent j, rw far at m)
  ]

  placed-add :
      (j q : ℕ)
      → elem q (with_first j) ≡ true
      → let b' = add_player_to_tile b there p in
        InMap b' (b'.player_at q).pos × (map_index b' (b'.player_at q).pos ≡ j)
  placed-add j q m =
      rw (width-add b there p, height-add b there p, pos-add b there p q)
        (elim (Bool-cases (p == q)) [
          | inl same ↦
              rw (same, v.tiles pos inside) (inside, self-with_first j (rw (← ==→eq p q same) at m))
          | inr other ↦ rw other (v.placed j q (mem-with_first j q other m))
        ])

  tiles-add :
      (q : Position)
      → InMap (add_player_to_tile b there p) q
      → ((add_player_to_tile b there p).tile_at (map_index (add_player_to_tile b there p) q)).pos
        ≡ q
  tiles-add q h =
      rw (width-add b there p, tile_pos-add b there p (map_index b q))
        (v.tiles q (rw (width-add b there p, height-add b there p) at h))

  -- Adding a player that stands on no tile puts it in front of the list of the tile at `pos`,
  -- gives it that position, and changes no other list.
  pub add-Represents :
      Represents (add_player_to_tile b (map_index b pos) p) (put_first occ (map_index b pos) p)
  add-Represents = record {
    chain = Chain-add;
    distinct = Distinct-add;
    placed = placed-add;
    tiles = tiles-add;
  }

module _ (b : Board) (occ : ℕ → List ℕ) (p : ℕ) (v : Represents b occ)
    (absent : (j : ℕ) → elem p (occ j) ≡ false) (w : Player) where
  -- A write to the memory of a player that stands on no tile changes no list.
  pub write-Represents : Represents (set_player b p w) occ
  write-Represents = record {
    chain = λ j.
        Chain-frame b.player_at (update b.player_at p w) none (b.tile_at j).players (occ j)
          (SameLinks-write b.player_at p w (occ j) (absent j)) (v.chain j);
    distinct = v.distinct;
    placed = λ j q m.
        rw (==_ne p q (λ e. cc (absent j, m, ap (λ k. elem k (occ j)) e))) (v.placed j q m);
    tiles = v.tiles;
  }
