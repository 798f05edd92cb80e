-- ===== src/Game/Broadcast/Delta.antt =====
-- The offset from which a call is heard: the short way round the map.
use zappy.Prelude.{
  Bool, true, false, if◌then◌else◌, ltb, refl, ◌&&◌, ◌↔◌, ℕ, ◌+◌, ◌/◌, ◌≤◌, ◌<◌, ◌≡◌, ◌⊎◌, arith,
}
use zappy.Prelude.Int.{ℤ, neg_ℤ, is_zero_ℤ, pos_part, neg_part, sub_ℕ, ◌+ℤ◌, ◌-ℤ◌}
use zappy.Board.{Board, Direction, Position}
use zappy.Board.View.{InMap}
use zappy.Game.Broadcast.{compute_broadcast_direction, rotate_x, rotate_y, minimal_delta}

-- Between two columns (or rows) of a map that is `max` wide, the offset that the code computes
-- is at most half the map in either direction, and differs from the plain difference by nothing
-- or by one turn round the map.
pub minimal_delta-short :
    (e l max : ℕ)
    → e < max
    → l < max
    → let d = minimal_delta (sub_ℕ e l) max in
      (pos_part d ≤ max / 2)
      × (neg_part d ≤ max / 2)
      × ((l + pos_part d ≡ e + neg_part d)
          ⊎ (l + pos_part d ≡ e + neg_part d + max)
          ⊎ (l + pos_part d + max ≡ e + neg_part d))
unfolding minimal_delta ◌+ℤ◌ ◌-ℤ◌
minimal_delta-short e l max he hl = ground arith

minimal_delta_same : (e max : ℕ) → is_zero_ℤ (minimal_delta (sub_ℕ e e) max) ≡ true
unfolding minimal_delta ◌+ℤ◌ ◌-ℤ◌
minimal_delta_same e max = ground arith

minimal_delta_zero :
    (e l max : ℕ) → e < max → l < max → is_zero_ℤ (minimal_delta (sub_ℕ e l) max) ≡ true → l ≡ e
minimal_delta_zero e l max he hl z = ground (arith, minimal_delta-short e l max he hl)

choose :
    (z : Bool) (k : ℕ)
    → 0 < k
    → let r = if z then 0 else if ltb 8 k then 1 else k in
      (r ≡ 0 → z ≡ true) × (z ≡ true → r ≡ 0) × (r ≤ 8)
choose true k h = (λ _. refl, λ _. refl, omega arith)
choose false k h = (λ e. absurd (ground arith), λ e. cc, ground arith)

both : (a b : Bool) → (a && b) ≡ true → (a ≡ true) × (b ≡ true)
both true b h = (refl, h)
both false b h = cc

-- A call is heard from direction 0 exactly on the tile of the caller, and from one of eight
-- directions otherwise. `sector` stands for the floating point computation of the angle, of which
-- only this is used, that it gives at least 1.
pub direction_zero_iff :
    (sector : ℤ → ℤ → ℕ) (b : Board) (listener emitter : Position) (dir : Direction)
    → ((dx dy : ℤ) → 0 < sector dx dy)
    → InMap b listener
    → InMap b emitter
    → let k = compute_broadcast_direction sector listener dir emitter b.map_x b.map_y in
      ((k ≡ 0) ↔ ((listener.x ≡ emitter.x) × (listener.y ≡ emitter.y))) × (k ≤ 8)
unfolding compute_broadcast_direction
direction_zero_iff sector b listener emitter dir some_sector hl he =
    let dx = minimal_delta (sub_ℕ emitter.x listener.x) b.map_x in
    let dy = minimal_delta (sub_ℕ emitter.y listener.y) b.map_y in
    let k = sector (neg_ℤ (rotate_y dir dx dy)) (rotate_x dir dx dy) in
    let c = choose (is_zero_ℤ dx && is_zero_ℤ dy) k (some_sector _ _) in
    (
      (
        λ e.
            let z = both (is_zero_ℤ dx) (is_zero_ℤ dy) (c.0 e) in
            (
              minimal_delta_zero emitter.x listener.x b.map_x he.0 hl.0 z.0,
              minimal_delta_zero emitter.y listener.y b.map_y he.1 hl.1 z.1,
            ),
        λ same. c.1 (
            rw (
              same.0,
              same.1,
              minimal_delta_same emitter.x b.map_x,
              minimal_delta_same emitter.y b.map_y,
            )),
      ),
      c.2,
    )
