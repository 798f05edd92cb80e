-- ===== src/Game/Incantation.antt =====
-- `incantation`: its two steps, the start that pays and the end that raises the levels.
pub mod Levels
pub mod Payment
use zappy.Prelude.{
  ℕ, suc, ◌+◌, ◌-◌, ◌==◌, ltb, leb, if◌then◌else◌, Bool, true, false, ◌||◌, Option, none, some,
  List, [], ◌∷◌, String, Status, success, error, get_or,
}
use zappy.Time.{schedule_client_event_front}
use zappy.Board.{Inventory, Player, map_index, set_tile}
use zappy.Game.{
  World, real_incantation, answer, set_board, write_player, write_client, get_client_from_fd,
}
use zappy.Game.Decimal.{decimal, atoi}
use zappy.Game.Walk.{walk}

-- LEVEL_MAX
abbrev pub level_max : ℕ
level_max = 7

pub record Requisites : Type 0 where
  pub player_number : ℕ
  pub inv : Inventory

abbrev stones : ℕ → ℕ → ℕ → ℕ → ℕ → ℕ → Inventory
stones l d s m p t = record {
  nourriture = 0;
  linemate = l;
  deraumere = d;
  sibur = s;
  mendiane = m;
  phiras = p;
  thystame = t;
}

abbrev requires : ℕ → Inventory → Requisites
requires n inv = record { player_number = n; inv = inv }

-- `level_reqs`
abbrev pub level_reqs : List Requisites
level_reqs =
    requires 1 (stones 1 0 0 0 0 0)
    ∷ requires 2 (stones 1 1 1 0 0 0)
    ∷ requires 2 (stones 2 0 1 0 2 0)
    ∷ requires 4 (stones 1 1 2 0 1 0)
    ∷ requires 4 (stones 1 2 1 3 0 0)
    ∷ requires 6 (stones 1 2 3 0 1 0)
    ∷ requires 6 (stones 2 2 2 2 2 1)
    ∷ []

-- `level_reqs[p->level]`, which the code reads below LEVEL_MAX only.
abbrev pub reqs_at : ℕ → Requisites
reqs_at level = get_or level_reqs level (requires 0 (stones 0 0 0 0 0 0))

-- One of the seven tests of `m_game_check_can_incantation` fails.
unfoldable pub lacks : Inventory → Inventory → Bool
lacks items needed =
    ltb items.nourriture needed.nourriture
    || (ltb items.linemate needed.linemate
        || (ltb items.deraumere needed.deraumere
            || (ltb items.sibur needed.sibur
                || (ltb items.mendiane needed.mendiane
                    || (ltb items.phiras needed.phiras || ltb items.thystame needed.thystame)))))

-- The players of the list whose level is the given one.
unfoldable pub count_level : (ℕ → Player) → ℕ → List ℕ → ℕ
count_level mem level [] = 0
count_level mem level (q ∷ qs) =
    if (mem q).level == level then suc (count_level mem level qs) else count_level mem level qs

-- `m_game_check_can_incantation`, where the loop over the tile meets the players of `on_tile`.
unfoldable pub can_incantation : World → ℕ → Bool → List ℕ → Status
can_incantation w p check_items on_tile =
    let pl = w.player_at p in
    let t = w.tile_at (map_index w.board pl.pos) in
    let reqs = reqs_at pl.level in
    if leb level_max pl.level
    then error
    else if (if check_items then lacks t.items reqs.inv else false)
    then error
    else if ltb (count_level w.player_at pl.level on_tile) reqs.player_number
    then error
    else success

-- The players that a loop over the tile of `p` meets. The list is walked once, before the tests
-- that come first in the code; the order shows only where a list does not end.
unfoldable pub players_here : World → ℕ → Option (List ℕ)
players_here w p =
    walk w.player_at w.next_ptr (w.tile_at (map_index w.board (w.player_at p).pos)).players

abbrev pub hang : World → Status × World
hang w = (error, record w { hung = true })

-- The body of the loop of `m_command_real_incantation`: `p2->level++`, and a reply.
unfoldable pub raise_level : World → ℕ → ℕ → World
raise_level w initial q =
    let pl = w.player_at q in
    let raised = write_player w q (record pl { level = pl.level + 1 }) in
    if pl.level == initial then (answer raised pl.id "incantation" none (some "Level up!")).1 else w

-- The loop over the players of the tile.
unfoldable pub raise_levels : World → ℕ → List ℕ → World
raise_levels w initial [] = w
raise_levels w initial (q ∷ qs) = raise_levels (raise_level w initial q) initial qs

abbrev pub refuse : World → ℕ → Status × World
refuse w p = answer w (w.player_at p).id "incantation" none (some "ko")

-- `m_command_real_incantation`, the event that ends an incantation; its argument is the level at
-- the start.
unfoldable pub end_incantation : World → ℕ → ℕ → List ℕ → Status × World
end_incantation w p initial on_tile =
    if (w.player_at p).level == initial
    then elim (can_incantation w p false on_tile) [
      | error ↦ refuse w p
      | success ↦
          let w' = raise_levels w initial on_tile in
          answer w' (w'.player_at p).id "incantation" none (some "ok")
    ]
    else refuse w p

-- A null argument would be a fault in `atoi`; `start_incantation` always gives one.
unfoldable pub command_real_incantation : World → ℕ → Option String → Status × World
unfolding end_incantation players_here
command_real_incantation w p none = hang w
command_real_incantation w p (some arg) = elim (players_here w p) [
  | none ↦ hang w
  | some on_tile ↦ end_incantation w p (atoi arg) on_tile
]

abbrev pub pay : Inventory → Inventory → Inventory
pay items cost = record {
  nourriture = items.nourriture - cost.nourriture;
  linemate = items.linemate - cost.linemate;
  deraumere = items.deraumere - cost.deraumere;
  sibur = items.sibur - cost.sibur;
  mendiane = items.mendiane - cost.mendiane;
  phiras = items.phiras - cost.phiras;
  thystame = items.thystame - cost.thystame;
}

-- The stones leave the tile of the player.
unfoldable pub pay_stones : World → ℕ → World
pay_stones w p =
    let pl = w.player_at p in
    let i = map_index w.board pl.pos in
    let t = w.tile_at i in
    set_board w (set_tile w.board i (record t { items = pay t.items (reqs_at pl.level).inv }))

-- The end of the incantation becomes the next event of the client; that its buffer may be full is
-- not looked at.
unfoldable pub schedule_end : World → ℕ → ℕ → World
schedule_end w p c =
    let cl = w.client_at c in
    let (status, b) =
      schedule_client_event_front (some w.time) cl.event_buffer w.incantation_time
        (some real_incantation) (some p) (some (decimal (w.player_at p).level)) in
    write_client w c (record cl { event_buffer = b })

unfoldable pub start_incantation : World → ℕ → List ℕ → Status × World
start_incantation w p on_tile = elim (can_incantation w p true on_tile) [
  | error ↦ refuse w p
  | success ↦
      let paid = pay_stones w p in
      elim (get_client_from_fd paid (w.player_at p).id) [
        | none ↦ (error, paid)
        | some c ↦
            answer (schedule_end paid p c) (w.player_at p).id "incantation" none
              (some "in_progress")
      ]
]

unfoldable pub command_incantation : World → ℕ → Status × World
unfolding start_incantation players_here
command_incantation w p =
    if leb level_max (w.player_at p).level
    then refuse w p
    else elim (players_here w p) [ none ↦ hang w | some on_tile ↦ start_incantation w p on_tile ]
