-- ===== src/Game/Items/Conserve.antt =====
-- `prend` and `pose` neither make nor lose a resource.
use zappy.Prelude.{
  Option-cases, String, ℕ, ◌+◌, ◌-◌, ◌<◌, ◌≡◌, ◌≢◌, refl, inl, inr, false, ◌==◌, Option, none, some,
  success, arith, Bool-cases, ==_self, ==_ne,
}
use zappy.Board.{Board, Inventory, map_index}
use zappy.Game.{World}
use zappy.Game.Replies.{board-respond}
use zappy.Game.Items.{
  exchange, find_item, inventory_names, command_prend, command_pose, Item, nourriture, linemate,
  deraumere, sibur, mendiane, phiras, thystame, amount, set_amount, Transfer, from_tile, to_tile,
  helper_items_to_tiles, transfer,
}

amount-set_self : (i : Item) (n : ℕ) (v : Inventory) → amount i (set_amount i n v) ≡ n
amount-set_self nourriture n v = refl
amount-set_self linemate n v = refl
amount-set_self deraumere n v = refl
amount-set_self sibur n v = refl
amount-set_self mendiane n v = refl
amount-set_self phiras n v = refl
amount-set_self thystame n v = refl

set_set :
    (i : Item) (m n : ℕ) (v : Inventory) → set_amount i m (set_amount i n v) ≡ set_amount i m v
set_set nourriture m n v = refl
set_set linemate m n v = refl
set_set deraumere m n v = refl
set_set sibur m n v = refl
set_set mendiane m n v = refl
set_set phiras m n v = refl
set_set thystame m n v = refl

set_amount_same : (i : Item) (v : Inventory) → set_amount i (amount i v) v ≡ v
set_amount_same nourriture v = refl
set_amount_same linemate v = refl
set_amount_same deraumere v = refl
set_amount_same sibur v = refl
set_amount_same mendiane v = refl
set_amount_same phiras v = refl
set_amount_same thystame v = refl

-- The change of one kind shows in that kind only.
shift-sum :
    (i j : Item) (t p : Inventory) (m n : ℕ)
    → m + n ≡ amount i t + amount i p
    → amount j (set_amount i m t) + amount j (set_amount i n p) ≡ amount j t + amount j p
shift-sum nourriture j t p m n h = ground arith
shift-sum linemate j t p m n h = ground arith
shift-sum deraumere j t p m n h = ground arith
shift-sum sibur j t p m n h = ground arith
shift-sum mendiane j t p m n h = ground arith
shift-sum phiras j t p m n h = ground arith
shift-sum thystame j t p m n h = ground arith

-- Whatever the direction, the kind and the outcome, tile and player together hold as much of
-- every kind as before.
pub helper-conserves :
    (t p : Inventory) (add : Transfer) (item : Option Item) (j : Item)
    → let (status, t', p') = helper_items_to_tiles t p add item in
      amount j t' + amount j p' ≡ amount j t + amount j p
unfolding helper_items_to_tiles
helper-conserves t p add none j = refl
helper-conserves t p from_tile (some i) j = elim (Bool-cases (amount i t == 0)) [
  | inl gone ↦ rw gone
  | inr there ↦ rw there (shift-sum i j t p (amount i t - 1) (amount i p + 1) (ground arith))
]
helper-conserves t p to_tile (some i) j = elim (Bool-cases (amount i p == 0)) [
  | inl gone ↦ rw gone
  | inr there ↦ rw there (shift-sum i j t p (amount i t + 1) (amount i p - 1) (ground arith))
]

-- What is taken from a tile that has it and put down again is back where it was.
pub helper-back :
    (t p : Inventory) (i : Item)
    → 0 < amount i t
    → let (_, t', p') = helper_items_to_tiles t p from_tile (some i) in
      helper_items_to_tiles t' p' to_tile (some i) ≡ (success, t, p)
unfolding helper_items_to_tiles
helper-back t p i h =
    let some_left : (amount i t == 0) ≡ false = ground arith in
    let carried : (amount i p + 1 == 0) ≡ false = ground arith in
    let restore : amount i t - 1 + 1 ≡ amount i t = omega arith in
    let drop : amount i p + 1 - 1 ≡ amount i p = omega arith in
    rw (
      some_left,
      amount-set_self i (amount i p + 1) p,
      amount-set_self i (amount i t - 1) t,
      carried,
      restore,
      drop,
      set_set i (amount i t) (amount i t - 1) t,
      set_set i (amount i p) (amount i p + 1) p,
      set_amount_same i t,
      set_amount_same i p,
    )

-- The resources of a kind on the tile where a player stands and in its bag.
abbrev pub held : Board → ℕ → Item → ℕ
held b p j =
    amount j (b.tile_at (map_index b (b.player_at p).pos)).items + amount j (b.player_at p).inv

-- What an exchange may change on the board: the bag of `p` and the tile under it, with what both
-- together hold the same.
pub record Exchanges (b b' : Board) (p : ℕ) : Type 0 where
  pub total : (j : Item) → held b' p j ≡ held b p j
  pub others : (q : ℕ) → p ≢ q → b'.player_at q ≡ b.player_at q
  pub tiles : (i : ℕ) → map_index b (b.player_at p).pos ≢ i → b'.tile_at i ≡ b.tile_at i

Exchanges-refl : (b : Board) (p : ℕ) → Exchanges b b p
Exchanges-refl b p = record { total = λ j. refl; others = λ q ne. refl; tiles = λ i ne. refl }

transfer-Exchanges :
    (w : World) (p : ℕ) (add : Transfer) (item : Option Item)
    → Exchanges w.board (transfer w p add item).1.board p
unfolding transfer
transfer-Exchanges w p add item =
    let i = map_index w.board (w.player_at p).pos in
    record {
      total = λ j.
          rw (==_self p, ==_self i)
            (helper-conserves (w.tile_at i).items (w.player_at p).inv add item j);
      others = λ q ne. rw (==_ne p q ne);
      tiles = λ k ne. rw (==_ne i k ne);
    }

exchange-Exchanges :
    (w : World) (p : ℕ) (arg : Option String) (cmd : String) (add : Transfer)
    → Exchanges w.board (exchange w p arg cmd add).1.board p
unfolding exchange
exchange-Exchanges w p none cmd add = rw (board-respond w) (Exchanges-refl w.board p)
exchange-Exchanges w p (some arg) cmd add = elim (Option-cases (find_item arg inventory_names)) [
  | inl e ↦ rw (e, exchange, board-respond w) (Exchanges-refl w.board p)
  | inr (item, e) ↦
      rw (e, exchange, board-respond (transfer w p add (some item)).1)
        (transfer-Exchanges w p add (some item))
]

-- `prend` and `pose`, with any argument and whatever the outcome: what the player and its tile
-- hold together stays the same in each of the seven kinds, and no other player and no other tile
-- changes.
pub prend_pose-Exchanges :
    (w : World) (p : ℕ) (arg : Option String)
    → Exchanges w.board (command_prend w p arg).1.board p
      × Exchanges w.board (command_pose w p arg).1.board p
unfolding command_prend command_pose
prend_pose-Exchanges w p arg =
    (exchange-Exchanges w p arg "prend" from_tile, exchange-Exchanges w p arg "pose" to_tile)
