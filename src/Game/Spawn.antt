-- ===== src/Game/Spawn.antt =====
-- The resources that appear on the map: the random counts, and `m_game_spawn_resources`.
pub mod Growth
use zappy.Prelude.{
  ℕ, zero, suc, ◌+◌, ◌*◌, ◌/◌, ◌%◌, ltb, if◌then◌else◌, Bool, Option, none, some, String, Status,
  success,
}
use zappy.Time.{schedule_client_event}
use zappy.Board.{Inventory, set_tile}
use zappy.Game.{World, Machine, SpawnCtx, spawn_resources, set_board}

-- The loop of `m_game_random_resource_count`: `call` numbers the calls of `rand()`. What comes
-- back is the count and the number of the next call; `none` means that the fuel ran out.
unfoldable pub count_draws : Machine → ℕ → ℕ → ℕ → ℕ → ℕ → Option (ℕ × ℕ)
count_draws m zero p0 prod call count = none
count_draws m (suc fuel) p0 prod call count =
    let next = m.times prod (m.ratio (m.rand call)) in
    let rest = count_draws m fuel p0 next (call + 1) (count + 1) in
    if m.less next p0 then some (count, call + 1) else rest

-- `m_game_random_resource_count`. Out of fuel the world is hung and the count 0.
unfoldable pub random_resource_count : World → ℕ → ℕ × World
unfolding count_draws
random_resource_count w lambda =
    let m = w.machine in
    elim (count_draws m m.patience (m.exp_neg lambda) m.one w.rand_calls 0) [
      | none ↦ (0, record w { hung = Bool.true })
      | some (n, calls) ↦ (n, record w { rand_calls = calls })
    ]

abbrev pub inventory_sum : Inventory → ℕ
inventory_sum v =
    v.nourriture + v.linemate + v.deraumere + v.sibur + v.mendiane + v.phiras + v.thystame

-- Seven counts, in the order of the code.
unfoldable pub draw_inventory : World → SpawnCtx → Inventory × World
unfolding random_resource_count
draw_inventory w₀ d =
    let (n, w₁) = random_resource_count w₀ d.d_nourriture in
    let (l, w₂) = random_resource_count w₁ d.d_linemate in
    let (r, w₃) = random_resource_count w₂ d.d_deraumere in
    let (s, w₄) = random_resource_count w₃ d.d_sibur in
    let (m, w₅) = random_resource_count w₄ d.d_mendiane in
    let (p, w₆) = random_resource_count w₅ d.d_phiras in
    let (t, w₇) = random_resource_count w₆ d.d_thystame in
    (
      record {
        nourriture = n;
        linemate = l;
        deraumere = r;
        sibur = s;
        mendiane = m;
        phiras = p;
        thystame = t;
      },
      w₇,
    )

abbrev pub add_items : Inventory → Inventory → Inventory
add_items a b = record {
  nourriture = a.nourriture + b.nourriture;
  linemate = a.linemate + b.linemate;
  deraumere = a.deraumere + b.deraumere;
  sibur = a.sibur + b.sibur;
  mendiane = a.mendiane + b.mendiane;
  phiras = a.phiras + b.phiras;
  thystame = a.thystame + b.thystame;
}

abbrev pub put_items : World → ℕ → Inventory → World
put_items w i v = let t = w.tile_at i in set_board w (set_tile w.board i (record t { items = v }))

-- `batch`, the number of tiles that are visited: a twentieth of the map, from 1 to 1000.
unfoldable pub batch_size : ℕ → ℕ
batch_size size =
    let share = (size * 5 + 99) / 100 in
    let at_least = if ltb share 1 then 1 else share in if ltb 1000 at_least then 1000 else at_least

-- The tile that is visited: `x = idx % W`, `y = idx / W`, `MAP(x, y)`.
abbrev pub visited : World → ℕ → ℕ
visited w idx = idx / w.map_x * w.map_x + idx % w.map_x

-- One tile: nothing comes onto a tile with more than fifteen resources.
unfoldable pub spawn_on : World → ℕ → World
unfolding draw_inventory
spawn_on w i =
    let (fresh, w') = draw_inventory w w.ctx in
    if ltb 15 (inventory_sum (w.tile_at i).items)
    then w
    else put_items w' i (add_items (w.tile_at i).items fresh)

-- `for (i = 0; i < batch; i++)` with `n` rounds left.
unfoldable pub spawn_loop : World → ℕ → ℕ → World
spawn_loop w zero i = w
spawn_loop w (suc n) i =
    spawn_loop (spawn_on w (visited w ((w.ctx.next_idx + i) % (w.map_x * w.map_y)))) n (i + 1)

-- `m_ctx.next_idx = (m_ctx.next_idx + batch) % MAP_SZ`
unfoldable pub advance : World → ℕ → World
advance w batch =
    let c = w.ctx in
    record w { ctx = record c { next_idx = (c.next_idx + batch) % (w.map_x * w.map_y) } }

-- The event puts itself into the buffer of the server again.
unfoldable pub reschedule_spawn : World → Option ℕ → Option String → World
reschedule_spawn w payload arg =
    let (status, b) =
      schedule_client_event (some w.time) w.event_buffer w.ctx.period (some spawn_resources) payload
        arg in
    record w { event_buffer = b }

unfoldable pub game_spawn_resources : World → Option ℕ → Option String → Status × World
unfolding batch_size spawn_loop advance reschedule_spawn
game_spawn_resources w payload arg =
    let batch = batch_size (w.map_x * w.map_y) in
    (success, reschedule_spawn (advance (spawn_loop w batch 0) batch) payload arg)
