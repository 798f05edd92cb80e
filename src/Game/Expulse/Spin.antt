-- ===== src/Game/Expulse/Spin.antt =====
-- Where `expulse` never comes to an end: the loop follows a player to the tile in front, and turns
-- round there.
use zappy.Prelude.{
  error, ℕ, zero, suc, ◌≡◌, ◌≢◌, refl, sym, subst, true, none, some, List, ◌∷◌, arith, ==_self,
  ==_ne,
}
use zappy.Board.{step_ahead, Board, Position, map_index, move_player}
use zappy.Board.Chain.{Chain, Distinct, elem, remove}
use zappy.Board.View.{Represents, InMap, tile_of}
use zappy.Board.Move.{step_ahead-InMap, moved, move-Represents, move-SamePlayers}
use zappy.Game.{World}
use zappy.Game.Replies.{board-respond}
use zappy.Game.Expulse.{command_expulse, expel, expulse_loop}

-- A player with another id than the one that pushes is moved.
pub board-expel :
    (w : World) (p : ℕ) (new : Position) (it : ℕ)
    → (w.player_at it).id ≢ (w.player_at p).id
    → (expel w p new it).board ≡ move_player w.board it new
unfolding expel
board-expel w p new it ne = rw (==_ne (w.player_at it).id (w.player_at p).id ne) (board-respond _ _)

-- The one that pushes is not.
pub expel_self : (w : World) (p : ℕ) (new : Position) → expel w p new p ≡ w
unfolding expel
expel_self w p new = rw (==_self (w.player_at p).id)

-- The player behind the first of a list.
pub next_of_first :
    (b : Board) (occ : ℕ → List ℕ) (i x a : ℕ) (rest : List ℕ)
    → Represents b occ
    → occ i ≡ x ∷ a ∷ rest
    → (b.player_at x).next_on_tile ≡ some a
next_of_first b occ i x a rest v e =
    (subst (Chain b.player_at none (b.tile_at i).players) e (v.chain i)).2.0

-- A second player of a list that is moved to the tile where it stands comes first there.
moved_within :
    (b : Board) (occ : ℕ → List ℕ) (new : Position) (x a : ℕ) (rest : List ℕ)
    → tile_of b a ≡ map_index b new
    → occ (map_index b new) ≡ x ∷ a ∷ rest
    → x ≢ a
    → moved b occ a new (map_index b new) ≡ a ∷ x ∷ rest
moved_within b occ new x a rest t e ne =
    rw (==_self (map_index b new), t, ==_self (map_index b new), e, ==_ne x a ne, ==_self a)

-- A player that is moved to another tile comes first there, and leaves its own list.
pub moved_across :
    (b : Board) (occ : ℕ → List ℕ) (new : Position) (x : ℕ) (qs : List ℕ)
    → tile_of b x ≢ map_index b new
    → occ (map_index b new) ≡ qs
    → (moved b occ x new (map_index b new) ≡ x ∷ qs)
      × (moved b occ x new (tile_of b x) ≡ remove x (occ (tile_of b x)))
moved_across b occ new x qs far e = (
  rw (==_self (map_index b new), ==_ne _ _ far, e),
  rw (==_ne (map_index b new) (tile_of b x) (λ h. far (sym h)), ==_self (tile_of b x)),
)

-- Two players that the loop meets on the new tile, one behind the other: it goes from the second
-- one to the first one and back. Neither has the id of the player that pushes.
record Spins (b : Board) (own : ℕ) (new : Position) (occ : ℕ → List ℕ) (x a : ℕ) (rest : List ℕ)
    : Type 0 where
  shape : Represents b occ
  inside : InMap b new
  there : occ (map_index b new) ≡ x ∷ a ∷ rest
  first_id : (b.player_at x).id ≢ own
  second_id : (b.player_at a).id ≢ own

module _ (b : Board) (own : ℕ) (new : Position) (occ : ℕ → List ℕ) (x a : ℕ) (rest : List ℕ)
    (s : Spins b own new occ x a rest) where
  here : tile_of b a ≡ map_index b new
  here = (s.shape.placed (map_index b new) a (rw s.there (ground arith))).1

  apart : x ≢ a
  apart h =
      let d : Distinct (x ∷ a ∷ rest) =
        subst Distinct s.there (s.shape.distinct (map_index b new)) in
      ground arith

  Spins-next : Spins (move_player b a new) own new (moved b occ a new) a x rest
  Spins-next =
      let same = move-SamePlayers b a new in
      record {
        shape = move-Represents b occ a new s.shape (rw (here, s.there) (ground arith)) s.inside;
        inside = rw (same.width, same.height) s.inside;
        there = rw same.width (moved_within b occ new x a rest here s.there apart);
        first_id = rw (same.id a) s.second_id;
        second_id = rw (same.id x) s.first_id;
      }

pub loop-step :
    (fuel : ℕ) (w : World) (p : ℕ) (new : Position) (it : ℕ)
    → expulse_loop (suc fuel) w p new (some it)
      ≡ expulse_loop fuel (expel w p new it) p new ((expel w p new it).player_at it).next_on_tile
unfolding expulse_loop
loop-step fuel w p new it = refl

-- So the loop takes more steps than any fuel.
spin :
    (fuel : ℕ) (w : World) (p : ℕ) (new : Position) (occ : ℕ → List ℕ) (x a : ℕ) (rest : List ℕ)
    → Spins w.board (w.player_at p).id new occ x a rest
    → expulse_loop fuel w p new (some a) ≡ none
unfolding expulse_loop
spin zero w p new occ x a rest s = refl
spin (suc fuel) w p new occ x a rest s =
    let same = move-SamePlayers w.board a new in
    let e : (expel w p new a).board ≡ move_player w.board a new =
      board-expel w p new a s.second_id in
    let s' : Spins (expel w p new a).board ((expel w p new a).player_at p).id new
        (moved w.board occ a new) a x rest =
      rw (e, same.id p) (Spins-next w.board (w.player_at p).id new occ x a rest s) in
    rw
      (
        loop-step fuel w p new a,
        next_of_first (expel w p new a).board (moved w.board occ a new) _ a x rest s'.shape
            s'.there,
      )
      (spin fuel (expel w p new a) p new (moved w.board occ a new) a x rest s')

-- The loop that reaches a player `x` on one tile never ends if anybody stands on the tile in
-- front: with every fuel it runs out. Conditions: the lists are right, the tiles differ, and
-- neither `x` nor the first player `a` in front has the id of the player that pushes.
pub expulse_loop-endless :
    (fuel : ℕ) (w : World) (p : ℕ) (new : Position) (occ : ℕ → List ℕ) (x a : ℕ) (rest : List ℕ)
    → Represents w.board occ
    → InMap w.board new
    → elem x (occ (tile_of w.board x)) ≡ true
    → tile_of w.board x ≢ map_index w.board new
    → occ (map_index w.board new) ≡ a ∷ rest
    → (w.player_at x).id ≢ (w.player_at p).id
    → (w.player_at a).id ≢ (w.player_at p).id
    → expulse_loop fuel w p new (some x) ≡ none
unfolding expulse_loop
expulse_loop-endless zero w p new occ x a rest v inside on far e nx na = refl
expulse_loop-endless (suc fuel) w p new occ x a rest v inside on far e nx na =
    let same = move-SamePlayers w.board x new in
    let eb : (expel w p new x).board ≡ move_player w.board x new = board-expel w p new x nx in
    let s' : Spins (expel w p new x).board ((expel w p new x).player_at p).id new
        (moved w.board occ x new) x a rest =
      rw (eb, same.id p)
        (record {
          shape = move-Represents w.board occ x new v on inside;
          inside = rw (same.width, same.height) inside;
          there = rw same.width (moved_across w.board occ new x (a ∷ rest) far e).0;
          first_id = rw (same.id x) nx;
          second_id = rw (same.id a) na;
        }) in
    rw
      (
        loop-step fuel w p new x,
        next_of_first (expel w p new x).board (moved w.board occ x new) _ x a rest s'.shape
            s'.there,
      )
      (spin fuel (expel w p new x) p new (moved w.board occ x new) x a rest s')

-- The loop passes over the player that pushes.
loop_from_self :
    (w : World) (p : ℕ) (new : Position) (occ : ℕ → List ℕ) (x : ℕ) (qs : List ℕ) (fuel : ℕ)
    → Represents w.board occ
    → occ (tile_of w.board p) ≡ p ∷ x ∷ qs
    → ((f : ℕ) → expulse_loop f w p new (some x) ≡ none)
    → expulse_loop fuel w p new (some p) ≡ none
unfolding expulse_loop
loop_from_self w p new occ x qs zero v own endless = refl
loop_from_self w p new occ x qs (suc fuel) v own endless =
    rw
      (
        loop-step fuel w p new p,
        expel_self w p new,
        next_of_first w.board occ (tile_of w.board p) p x qs v own,
      )
      (endless fuel)

abbrev pub ahead : World → ℕ → Position
ahead w p = step_ahead w.board (w.player_at p).pos (w.player_at p).dir

-- The whole command, where the player `p` that pushes stands first on its tile: if anybody stands
-- behind it there and anybody on the tile in front, the command hangs the server, whatever the
-- fuel `next_ptr` of the loop is. Conditions: the lists are right, `p` stands on the map, the tile
-- in front is another one, and neither of the two players has the id of `p`.
pub command_expulse-hangs :
    (w : World) (p : ℕ) (occ : ℕ → List ℕ) (x a : ℕ) (qs rest : List ℕ)
    → Represents w.board occ
    → InMap w.board (w.player_at p).pos
    → occ (tile_of w.board p) ≡ p ∷ x ∷ qs
    → tile_of w.board p ≢ map_index w.board (ahead w p)
    → occ (map_index w.board (ahead w p)) ≡ a ∷ rest
    → (w.player_at x).id ≢ (w.player_at p).id
    → (w.player_at a).id ≢ (w.player_at p).id
    → command_expulse w p ≡ (error, record w { hung = true })
unfolding command_expulse
command_expulse-hangs w p occ x a qs rest v inside own far e nx na =
    let first : (w.tile_at (tile_of w.board p)).players ≡ some p =
      (subst (Chain w.player_at none (w.tile_at (tile_of w.board p)).players) own
        (v.chain (tile_of w.board p))).0 in
    let on : elem x (occ (tile_of w.board p)) ≡ true = rw own (ground arith) in
    let at : tile_of w.board x ≡ tile_of w.board p = (v.placed (tile_of w.board p) x on).1 in
    rw (
      first,
      loop_from_self w p (ahead w p) occ x qs w.next_ptr v own (λ fuel.
          expulse_loop-endless fuel w p (ahead w p) occ x a rest v
            (step_ahead-InMap w.board (w.player_at p).pos (w.player_at p).dir inside) (rw at on)
            (rw at far) e nx na),
    )
