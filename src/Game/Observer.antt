-- ===== src/Game/Observer.antt =====
-- The JSON view of the game in game.c: `m_serialize_inventory`, `m_serialize_tile`,
-- `m_serialize_player` and `m_serialize_server`, as the tree that their calls of cJSON build.
pub mod Shown
use zappy.Prelude.{
  ℕ, zero, suc, ◌+◌, ◌*◌, Option, none, some, List, [], ◌∷◌, ◌++◌, map, length, String,
}
use zappy.Prelude.Int.{ℤ, pos, sub_ℕ}
use zappy.Board.{
  Direction, north, east, south, west, Position, Inventory, Player, Tile, Board, map_index,
}
use zappy.Game.{World, Team}
use zappy.Game.Teams.{team_at}
use zappy.Game.Walk.{walk}

mutual
  pub data Node : Type 0 where
    number : ℤ → Node
    text : String → Node
    object : Members → Node
    array : Nodes → Node

  pub data Members : Type 0 where
    no_members : Members
    member : String → Node → Members → Members

  pub data Nodes : Type 0 where
    no_nodes : Nodes
    item : Node → Nodes → Nodes

-- `cJSON_AddItemToObject` and its kin, in the order of the calls.
abbrev pub members_of : List (String × Node) → Members
members_of [] = no_members
members_of ((name, n) ∷ rest) = member name n (members_of rest)

-- `cJSON_AddItemToArray`, in the order of the calls.
abbrev pub nodes_of : List Node → Nodes
nodes_of [] = no_nodes
nodes_of (n ∷ ns) = item n (nodes_of ns)

abbrev pub count : ℕ → Node
count n = number (pos n)

-- The values of the enumeration `direction`.
abbrev pub dir_number : Direction → ℕ
dir_number north = 0
dir_number east = 1
dir_number south = 2
dir_number west = 3

unfoldable pub serialize_inventory : Inventory → Node
serialize_inventory inv = object (
    members_of (
      ("nourriture", count inv.nourriture)
      ∷ ("linemate", count inv.linemate)
      ∷ ("deraumere", count inv.deraumere)
      ∷ ("sibur", count inv.sibur)
      ∷ ("mendiane", count inv.mendiane)
      ∷ ("phiras", count inv.phiras)
      ∷ ("thystame", count inv.thystame)
      ∷ []))

-- What `m_serialize_tile` builds when its loop has met the players `ps`.
abbrev pub tile_node : Board → Tile → List ℕ → Node
tile_node b t ps = object (
    members_of (
      ("x", count t.pos.x)
      ∷ ("y", count t.pos.y)
      ∷ ("resources", serialize_inventory t.items)
      ∷ ("players", array (nodes_of (map (λ p. count (b.player_at p).id) ps)))
      ∷ []))

-- `none` means that the loop over the players ran out of fuel.
unfoldable pub serialize_tile : World → Tile → Option Node
unfolding walk serialize_inventory
serialize_tile w t = elim (walk w.player_at w.next_ptr t.players) [
  | none ↦ none
  | some ps ↦ some (tile_node w.board t ps)
]

unfoldable pub serialize_player : World → Player → Node
unfolding serialize_inventory
serialize_player w p = object (
    members_of (
      ("id", count p.id)
      ∷ ("position", object (members_of (("x", count p.pos.x) ∷ ("y", count p.pos.y) ∷ [])))
      ∷ ("orientation", count (dir_number p.dir))
      ∷ ("level", count p.level)
      ∷ ("team", text (team_at w p.team_id).name)
      ∷ ("inventory", serialize_inventory p.inv)
      ∷ []))

-- One more item in front of those of the rounds that follow.
abbrev pub and_then : {A : Type 0} → Option A → Option (List A) → Option (List A)
and_then none rest = none
and_then (some a) none = none
and_then (some a) (some rest) = some (a ∷ rest)

-- The items of a row, then those of the rows that follow.
abbrev pub join : {A : Type 0} → Option (List A) → Option (List A) → Option (List A)
join none rest = none
join (some a) none = none
join (some a) (some rest) = some (a ++ rest)

-- `for (x = 0; x < m_server.map_x; x++)` with `n` rounds left.
unfoldable pub serialize_row : World → ℕ → ℕ → ℕ → Option (List Node)
unfolding serialize_tile
serialize_row w y zero x = some []
serialize_row w y (suc n) x =
    and_then (serialize_tile w (w.tile_at (map_index w.board (record { x = x; y = y }))))
      (serialize_row w y n (x + 1))

-- `for (y = 0; y < m_server.map_y; y++)` with `n` rounds left.
unfoldable pub serialize_rows : World → ℕ → ℕ → Option (List Node)
unfolding serialize_row
serialize_rows w zero y = some []
serialize_rows w (suc n) y = join (serialize_row w y w.map_x 0) (serialize_rows w n (y + 1))

-- `m_server.clients[i]->player`: the code follows the pointer of an empty slot too, which is
-- `none` here.
unfoldable pub serialize_players : World → List (Option ℕ) → Option (List Node)
unfolding serialize_player
serialize_players w [] = some []
serialize_players w (none ∷ slots) = none
serialize_players w (some c ∷ slots) =
    let rest = serialize_players w slots in
    elim (w.client_at c).player [
      | none ↦ rest
      | some p ↦ and_then (some (serialize_player w (w.player_at p))) rest
    ]

-- The body of the loop over the teams.
abbrev pub team_node : Team → Node
team_node t = object (
    members_of (
      ("name", text t.name)
      ∷ ("player_count", count t.current_players)
      ∷ ("remaining_connections", number (sub_ℕ t.max_players t.current_players))
      ∷ []))

-- `root`, with the items of the arrays `tiles` and `players`.
abbrev pub server_node : World → List Node → List Node → Node
server_node w tiles players = object (
    members_of (
      (
        "map",
        object (
            members_of (
              ("width", count w.map_x)
              ∷ ("height", count w.map_y)
              ∷ ("tiles", array (nodes_of tiles))
              ∷ [])),
      )
      ∷ ("players", array (nodes_of players))
      ∷ (
        "game",
        object (
            members_of (
              ("tick", count w.time.t)
              ∷ ("time_unit", count w.time.current_time_units)
              ∷ ("teams", array (nodes_of (map team_node w.teams)))
              ∷ [])),
      )
      ∷ []))

abbrev pub with_players : World → List Node → Option (List Node) → Option Node
with_players w tiles none = none
with_players w tiles (some players) = some (server_node w tiles players)

-- `m_serialize_server` up to the printing. `none`: it does not end or follows a null pointer.
unfoldable pub serialize_server : World → Option Node
unfolding serialize_rows serialize_players
serialize_server w = elim (serialize_rows w w.map_y 0) [
  | none ↦ none
  | some tiles ↦ with_players w tiles (serialize_players w w.clients)
]
