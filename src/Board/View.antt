-- ===== src/Board/View.antt =====
-- The tile functions of game.c against the plain view of the map: a list of players for each tile.
use zappy.Prelude.{
  ◌∷◌, ℕ, ◌<◌, ◌≡◌, ◌≢◌, refl, sym, ◌∙◌, inl, inr, true, false, ◌==◌, Option, none, some, List, [],
  arith, Bool-cases,
}
use zappy.Board.{update, Position, Board, map_index}
use zappy.Board.Chain.{Chain, Distinct, elem, remove}
use zappy.Board.Relink.{Outside}

-- The index of the tile that a player's position names.
abbrev pub tile_of : Board → ℕ → ℕ
tile_of b p = map_index b (b.player_at p).pos

-- The view without the player `p` on the tile `i`, and with it in front there.
abbrev pub take_off : (ℕ → List ℕ) → ℕ → ℕ → ℕ → List ℕ
take_off occ i p = update occ i (remove p (occ i))

abbrev pub put_first : (ℕ → List ℕ) → ℕ → ℕ → ℕ → List ℕ
put_first occ i p = update occ i (p ∷ occ i)

-- The position lies on the map.
abbrev pub InMap : Board → Position → Type 0
InMap b pos = (pos.x < b.map_x) × (pos.y < b.map_y)

-- The board holds, on each tile, the players that the view lists for it, in that order.
pub record Represents (b : Board) (occ : ℕ → List ℕ) : Type 0 where
  pub chain : (i : ℕ) → Chain b.player_at none (b.tile_at i).players (occ i)
  pub distinct : (i : ℕ) → Distinct (occ i)
  pub placed :
      (i p : ℕ)
      → elem p (occ i) ≡ true
      → InMap b (b.player_at p).pos × (map_index b (b.player_at p).pos ≡ i)
  pub tiles : (pos : Position) → InMap b pos → (b.tile_at (map_index b pos)).pos ≡ pos

pub Outside-of :
    (l : Option ℕ) (qs : List ℕ) → ((s : ℕ) → l ≡ some s → elem s qs ≡ false) → Outside l qs
Outside-of none qs h = tt
Outside-of (some s) qs h = h s refl

pub elem-remove_self : (p : ℕ) (qs : List ℕ) → Distinct qs → elem p (remove p qs) ≡ false
elem-remove_self p [] d = refl
elem-remove_self p (q ∷ qs) d = ground (arith, elem-remove_self p qs d.1)

pub elem-remove : (s p : ℕ) (qs : List ℕ) → elem s qs ≡ false → elem s (remove p qs) ≡ false
elem-remove s p [] e = refl
elem-remove s p (q ∷ qs) e = ground (arith, elem-remove s p qs)

pub mem-remove : (s p : ℕ) (qs : List ℕ) → elem s (remove p qs) ≡ true → elem s qs ≡ true
mem-remove s p [] e = e
mem-remove s p (q ∷ qs) e = ground (arith, mem-remove s p qs)

pub remove-Distinct : (p : ℕ) (qs : List ℕ) → Distinct qs → Distinct (remove p qs)
remove-Distinct p [] d = tt
remove-Distinct p (q ∷ qs) d = elim (Bool-cases (q == p)) [
  | inl here ↦ rw here d.1
  | inr there ↦ rw there (elem-remove q p qs d.0, remove-Distinct p qs d.1)
]

-- A player stands on one tile only.
pub elsewhere :
    (b : Board) (occ : ℕ → List ℕ) (i j p : ℕ)
    → Represents b occ
    → elem p (occ i) ≡ true
    → i ≢ j
    → elem p (occ j) ≡ false
elsewhere b occ i j p v e ne = elim (Bool-cases (elem p (occ j))) [
  | inl there ↦ absurd (ne (sym (v.placed i p e).1 ∙ (v.placed j p there).1))
  | inr absent ↦ absent
]
