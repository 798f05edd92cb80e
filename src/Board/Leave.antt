-- ===== src/Board/Leave.antt =====
-- `m_game_remove_player_from_tile` takes the player off the list of its tile.
use zappy.Prelude.{
  ℕ, ◌≡◌, ◌≢◌, ◌⊎◌, inl, inr, true, false, ◌==◌, if◌then◌else◌, none, some, List, arith, Bool-cases,
  ==_self, ==→eq,
}
use zappy.Board.{Position, Board, map_index, remove_player_from_tile}
use zappy.Board.Chain.{
  Chain, Distinct, elem, Chain-frame, next_in, prev_in, Distinct-next_ne, Distinct-prev_ne,
}
use zappy.Board.Unlink.{
  points, pos-remove, players-remove, tile_pos-remove, width-remove, height-remove,
}
use zappy.Board.Relink.{Outside, points_ne, head_prev, SameLinks-remove, Chain-unlink}
use zappy.Board.View.{
  tile_of, take_off, InMap, Represents, Outside-of, elem-remove_self, mem-remove, remove-Distinct,
  elsewhere,
}

module _ (b : Board) (occ : ℕ → List ℕ) (p : ℕ) (v : Represents b occ) where
  abbrev here : ℕ
  here = tile_of b p

  abbrev without : ℕ → List ℕ
  without = take_off occ here p

  module _ (e : elem p (occ here) ≡ true) where
    next_ne : (b.player_at p).next_on_tile ≢ some p
    next_ne = Distinct-next_ne b.player_at none _ (occ here) p (v.chain here) (v.distinct here) e

    prev_ne : (b.player_at p).prev_on_tile ≢ some p
    prev_ne =
        Distinct-prev_ne b.player_at none _ (occ here) p (v.chain here) (v.distinct here) e
          (λ h. cc)

    first_or_behind :
        (((b.tile_at here).players ≡ some p) × ((b.player_at p).prev_on_tile ≡ none))
        ⊎ ((s : ℕ) × ((b.player_at p).prev_on_tile ≡ some s) × (elem s (occ here) ≡ true))
    first_or_behind = prev_in b.player_at none _ (occ here) p (v.chain here) e

    -- The head of the tile's list is what the code writes there.
    head_written : ((remove_player_from_tile b p).tile_at here).players ≡ (
        if points (b.tile_at here).players p
        then (b.player_at p).next_on_tile
        else (b.tile_at here).players)
    head_written = elim first_or_behind [
      | inl (f, pr) ↦ rw (players-remove b p here, ==_self here, pr, f, ==_self p)
      | inr (s, pr, m) ↦
          let other : (b.tile_at here).players ≢ some p =
            λ h. cc (head_prev b.player_at none _ (occ here) p (v.chain here) h e) in
          rw (players-remove b p here, ==_self here, pr, points_ne _ p other)
    ]

    next-Outside : (j : ℕ) → here ≢ j → Outside (b.player_at p).next_on_tile (occ j)
    next-Outside j ne = Outside-of _ (occ j) λ s h.
        elsewhere b occ here j s v (next_in b.player_at none _ (occ here) p s (v.chain here) e h) ne

    prev-Outside : (j : ℕ) → here ≢ j → Outside (b.player_at p).prev_on_tile (occ j)
    prev-Outside j ne = elim first_or_behind [
      | inl (f, pr) ↦ rw pr tt
      | inr (s, pr, m) ↦ rw pr (elsewhere b occ here j s v m ne)
    ]

    Chain-remove :
        (j : ℕ)
        → Chain
            (remove_player_from_tile b p).player_at
            none
            ((remove_player_from_tile b p).tile_at j).players
            (without j)
    Chain-remove j = elim (Bool-cases (here == j)) [
      | inl eq ↦
          let same : here ≡ j = ==→eq here j eq in
          rw (eq, ← same, head_written)
            (Chain-unlink b p next_ne prev_ne none _ (occ here) (v.chain here) (v.distinct here) tt
              e)
      | inr far ↦
          let ne : here ≢ j = λ h. ground arith in
          rw (far, players-remove b p j, far)
            (Chain-frame b.player_at (remove_player_from_tile b p).player_at none
              (b.tile_at j).players (occ j)
              (SameLinks-remove b p next_ne prev_ne (occ j) (elsewhere b occ here j p v e ne)
                (next-Outside j ne) (prev-Outside j ne))
              (v.chain j))
    ]

    Distinct-remove : (j : ℕ) → Distinct (without j)
    Distinct-remove j = elim (Bool-cases (here == j)) [
      | inl eq ↦ rw eq (remove-Distinct p (occ here) (v.distinct here))
      | inr far ↦ rw far (v.distinct j)
    ]

    placed-remove :
        (j q : ℕ)
        → elem q (without j) ≡ true
        → let b' = remove_player_from_tile b p in
          InMap b' (b'.player_at q).pos × (map_index b' (b'.player_at q).pos ≡ j)
    placed-remove j q m =
        rw (width-remove b p, height-remove b p, pos-remove b p q)
          (elim (Bool-cases (here == j)) [
            | inl eq ↦ v.placed j q (mem-remove q p (occ j) (rw (==→eq here j eq) at (rw eq at m)))
            | inr far ↦ v.placed j q (rw far at m)
          ])

    tiles-remove :
        (pos : Position)
        → InMap (remove_player_from_tile b p) pos
        → ((remove_player_from_tile b p).tile_at (map_index (remove_player_from_tile b p) pos)).pos
          ≡ pos
    tiles-remove pos h =
        rw (width-remove b p, tile_pos-remove b p (map_index b pos))
          (v.tiles pos (rw (width-remove b p, height-remove b p) at h))

    -- Taking a player off its tile removes it from the list of that tile, and leaves the lists of
    -- all other tiles, the positions and the shape of the map alone.
    pub remove-Represents : Represents (remove_player_from_tile b p) (take_off occ (tile_of b p) p)
    remove-Represents = record {
      chain = Chain-remove;
      distinct = Distinct-remove;
      placed = placed-remove;
      tiles = tiles-remove;
    }

    -- After that the player stands on no tile.
    pub remove-absent : (j : ℕ) → elem p (take_off occ (tile_of b p) p j) ≡ false
    remove-absent j = elim (Bool-cases (here == j)) [
      | inl eq ↦ rw eq (elem-remove_self p (occ here) (v.distinct here))
      | inr far ↦ rw far (elsewhere b occ here j p v e (λ h. ground arith))
    ]
