-- ===== src/Game/Broadcast.antt =====
-- `broadcast`: from where a listener hears a call, on a map without edges.
pub mod Delta
use zappy.Prelude.{
  ℕ, ◌/◌, ltb, if◌then◌else◌, ◌&&◌, Option, none, some, List, [], ◌∷◌, String, Status,
}
use zappy.Prelude.Int.{ℤ, pos, ◌+ℤ◌, ◌-ℤ◌, neg_ℤ, ltb_ℤ, is_zero_ℤ, sub_ℕ}
use zappy.Board.{Direction, north, east, south, west, Position, Player}
use zappy.Game.{World, answer}
use zappy.Game.Decimal.{decimal}

-- `minimal_delta`; C divides `-max / 2` towards 0.
unfoldable pub minimal_delta : ℤ → ℕ → ℤ
minimal_delta delta max =
    let first = if ltb_ℤ (pos (max / 2)) delta then delta -ℤ pos max else delta in
    if ltb_ℤ first (neg_ℤ (pos (max / 2))) then first +ℤ pos max else first

-- The switch on `listener_dir & 3`: the offset as the listener sees it.
abbrev pub rotate_x : Direction → ℤ → ℤ → ℤ
rotate_x north dx dy = dx
rotate_x east dx dy = dy
rotate_x south dx dy = neg_ℤ dx
rotate_x west dx dy = neg_ℤ dy

abbrev pub rotate_y : Direction → ℤ → ℤ → ℤ
rotate_y north dx dy = dy
rotate_y east dx dy = neg_ℤ dx
rotate_y south dx dy = neg_ℤ dy
rotate_y west dx dy = dx

-- `compute_broadcast_direction`; `sector` is the floating point computation on the arguments of
-- `atan2`, up to the last test.
unfoldable pub compute_broadcast_direction :
    (ℤ → ℤ → ℕ) → Position → Direction → Position → ℕ → ℕ → ℕ
unfolding minimal_delta
compute_broadcast_direction sector listener dir emitter width height =
    let dx = minimal_delta (sub_ℕ emitter.x listener.x) width in
    let dy = minimal_delta (sub_ℕ emitter.y listener.y) height in
    let k = sector (neg_ℤ (rotate_y dir dx dy)) (rotate_x dir dx dy) in
    if is_zero_ℤ dx && is_zero_ℤ dy then 0 else if ltb 8 k then 1 else k

-- What the client `c` is sent; a slot with no client or no player is passed over.
abbrev pub deliver : World → Player → Option String → Option ℕ → World
deliver w emitter text none = w
deliver w emitter text (some c) = elim (w.client_at c).player [
  | none ↦ w
  | some q ↦
      let receiver = w.player_at q in
      let k =
        compute_broadcast_direction w.machine.sector receiver.pos receiver.dir emitter.pos w.map_x
          w.map_y in
      (answer w receiver.id "message" (some (decimal k)) text).1
]

-- The loop of `m_command_broadcast` over the slots.
unfoldable pub broadcast_loop : World → Player → Option String → List (Option ℕ) → World
broadcast_loop w emitter text [] = w
broadcast_loop w emitter text (c ∷ slots) =
    broadcast_loop (deliver w emitter text c) emitter text slots

unfoldable pub command_broadcast : World → ℕ → Option String → Status × World
unfolding broadcast_loop compute_broadcast_direction
command_broadcast w p text =
    let emitter = w.player_at p in
    answer (broadcast_loop w emitter text w.clients) emitter.id "broadcast" none (some "ok")
