-- ===== src/Game/Items.antt =====
-- `prend`, `pose` and `inventaire`: the resources that a player takes up, puts down and carries.
pub mod Conserve
use text.Mathlib.Text.{◌==◌ as str_eq}
use zappy.Prelude.{
  ℕ, ◌+◌, ◌-◌, ◌==◌, if◌then◌else◌, Option, none, some, List, [], ◌∷◌, String, Status, success,
  error,
}
use zappy.Board.{Inventory, map_index, set_player, set_tile}
use zappy.Game.{World, inventory_report, send, answer, set_board}

-- `inventory_type`, without UNKNOWN.
pub data Item : Type 0 where
  nourriture linemate deraumere sibur mendiane phiras thystame : Item

-- `inventory_names`
abbrev pub inventory_names : List (Item × String)
inventory_names =
    (nourriture, "nourriture")
    ∷ (linemate, "linemate")
    ∷ (deraumere, "deraumere")
    ∷ (sibur, "sibur")
    ∷ (mendiane, "mendiane")
    ∷ (phiras, "phiras")
    ∷ (thystame, "thystame")
    ∷ []

pub find_item : String → List (Item × String) → Option Item
find_item arg [] = none
find_item arg ((item, name) ∷ rest) = if str_eq arg name then some item else find_item arg rest

-- The field of an inventory that a case of the switch of `m_helper_items_to_tiles` reads.
abbrev pub amount : Item → Inventory → ℕ
amount nourriture v = v.nourriture
amount linemate v = v.linemate
amount deraumere v = v.deraumere
amount sibur v = v.sibur
amount mendiane v = v.mendiane
amount phiras v = v.phiras
amount thystame v = v.thystame

-- The field that it writes.
abbrev pub set_amount : Item → ℕ → Inventory → Inventory
set_amount nourriture n v = record v { nourriture = n }
set_amount linemate n v = record v { linemate = n }
set_amount deraumere n v = record v { deraumere = n }
set_amount sibur n v = record v { sibur = n }
set_amount mendiane n v = record v { mendiane = n }
set_amount phiras n v = record v { phiras = n }
set_amount thystame n v = record v { thystame = n }

-- The values of `add` that the callers pass: -1 takes from the tile, 1 puts onto it.
pub data Transfer : Type 0 where
  from_tile to_tile : Transfer

-- `m_helper_items_to_tiles`, on the two inventories; `none` as the item is UNKNOWN.
unfoldable pub helper_items_to_tiles :
    Inventory → Inventory → Transfer → Option Item → Status × Inventory × Inventory
helper_items_to_tiles t p add none = (error, t, p)
helper_items_to_tiles t p from_tile (some i) =
    if amount i t == 0
    then (error, t, p)
    else (success, set_amount i (amount i t - 1) t, set_amount i (amount i p + 1) p)
helper_items_to_tiles t p to_tile (some i) =
    if amount i p == 0
    then (error, t, p)
    else (success, set_amount i (amount i t + 1) t, set_amount i (amount i p - 1) p)

-- The call of the helper on the tile and the player that the two pointers name.
unfoldable pub transfer : World → ℕ → Transfer → Option Item → Status × World
transfer w p add item =
    let pl = w.player_at p in
    let i = map_index w.board pl.pos in
    let t = w.tile_at i in
    let (status, items, inv) = helper_items_to_tiles t.items pl.inv add item in
    (
      status,
      set_board w (
          set_tile (set_player w.board p (record pl { inv = inv })) i (record t { items = items })),
    )

abbrev pub transfer_status : Status → String
transfer_status success = "ok"
transfer_status error = "ko"

-- The common body of `m_command_prend` and `m_command_pose`, which differ in a name and a sign.
unfoldable pub exchange : World → ℕ → Option String → String → Transfer → Status × World
unfolding find_item transfer
exchange w p none cmd add = answer w (w.player_at p).id cmd (some "Invalid arg.") (some "ko")
exchange w p (some arg) cmd add = elim (find_item arg inventory_names) [
  | none ↦ answer w (w.player_at p).id cmd (some "Unknown type.") (some "ko")
  | some item ↦
      let (status, w') = transfer w p add (some item) in
      answer w' (w'.player_at p).id cmd (some arg) (some (transfer_status status))
]

unfoldable pub command_prend : World → ℕ → Option String → Status × World
unfolding exchange
command_prend w p arg = exchange w p arg "prend" from_tile

unfoldable pub command_pose : World → ℕ → Option String → Status × World
unfolding exchange
command_pose w p arg = exchange w p arg "pose" to_tile

unfoldable pub command_inventaire : World → ℕ → Status × World
command_inventaire w p = (success, send w (inventory_report (w.player_at p).id (w.player_at p).inv))
