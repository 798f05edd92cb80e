-- ===== src/Game/Steady/Rituals.antt =====
-- The two steps of an incantation, and the spawning of resources.
use zappy.Prelude.{
  ℕ, zero, suc, ◌+◌, ◌*◌, ◌%◌, refl, inl, inr, true, false, leb, ltb, ◌==◌, Option, none, some,
  List, [], ◌∷◌, String, Bool-cases, Option-cases, Status-cases,
}
use zappy.Time.Valid.{schedule-IsValid, schedule_front-IsValid}
use zappy.Game.{World, SpawnCtx, get_client_from_fd}
use zappy.Game.Decimal.{atoi}
use zappy.Game.Incantation.{
  level_max, hang, players_here, raise_level, raise_levels, can_incantation, end_incantation,
  command_real_incantation, pay_stones, schedule_end, start_incantation, command_incantation,
}
use zappy.Game.Spawn.{
  count_draws, random_resource_count, draw_inventory, inventory_sum, spawn_on, spawn_loop,
  batch_size, visited, advance, reschedule_spawn, game_spawn_resources,
}
use zappy.Game.Steady.{
  Steady, Steady-refl, Steady-trans, Steady-respond, Steady-board, Steady-write_player,
  Steady-write_client,
}
use zappy.Game.Steady.Commands.{Steady-answered}

Steady-hang : (w : World) → Steady w (hang w).1
Steady-hang w = record {
  teams = refl;
  clients = refl;
  next_ptr = refl;
  players = λ c. refl;
  team_ids = λ q. refl;
  buffers = λ v. v;
}

Steady-raise_level : (w : World) (initial q : ℕ) → Steady w (raise_level w initial q)
unfolding raise_level
Steady-raise_level w initial q = elim (Bool-cases ((w.player_at q).level == initial)) [
  | inl same ↦ rw same (Steady-answered w _ _ (Steady-write_player w q _ refl))
  | inr other ↦ rw other (Steady-refl w)
]

Steady-raise_levels : (w : World) (initial : ℕ) (qs : List ℕ) → Steady w (raise_levels w initial qs)
unfolding raise_levels
Steady-raise_levels w initial [] = Steady-refl w
Steady-raise_levels w initial (q ∷ qs) =
    Steady-trans w (raise_level w initial q) _ (Steady-raise_level w initial q)
      (Steady-raise_levels (raise_level w initial q) initial qs)

Steady-end :
    (w : World) (p initial : ℕ) (on_tile : List ℕ)
    → Steady w (end_incantation w p initial on_tile).1
unfolding end_incantation
Steady-end w p initial on_tile = elim (Bool-cases ((w.player_at p).level == initial)) [
  | inr other ↦ rw other (Steady-respond w _)
  | inl same ↦ elim (Status-cases (can_incantation w p false on_tile)) [
    | inr cannot ↦ rw (same, cannot, end_incantation) (Steady-respond w _)
    | inl can ↦
        rw (same, can, end_incantation)
          (Steady-answered w _ _ (Steady-raise_levels w initial on_tile))
  ]
]

pub Steady-real_incantation :
    (w : World) (p : ℕ) (arg : Option String) → Steady w (command_real_incantation w p arg).1
unfolding command_real_incantation
Steady-real_incantation w p none = Steady-hang w
Steady-real_incantation w p (some arg) = elim (Option-cases (players_here w p)) [
  | inl lost ↦ rw (lost, command_real_incantation) (Steady-hang w)
  | inr (on_tile, met) ↦ rw (met, command_real_incantation) (Steady-end w p (atoi arg) on_tile)
]

Steady-pay_stones : (w : World) (p : ℕ) → Steady w (pay_stones w p)
unfolding pay_stones
Steady-pay_stones w p = Steady-board w _ (λ q. refl)

Steady-schedule_end : (w : World) (p c : ℕ) → Steady w (schedule_end w p c)
unfolding schedule_end
Steady-schedule_end w p c =
    Steady-write_client w c _ refl (schedule_front-IsValid (some w.time) _ _ _ _ _)

Steady-start : (w : World) (p : ℕ) (on_tile : List ℕ) → Steady w (start_incantation w p on_tile).1
unfolding start_incantation
Steady-start w p on_tile = elim (Status-cases (can_incantation w p true on_tile)) [
  | inr cannot ↦ rw (cannot, start_incantation) (Steady-respond w _)
  | inl can ↦
      let paid = pay_stones w p in
      elim (Option-cases (get_client_from_fd paid (w.player_at p).id)) [
        | inl e ↦ rw (can, e, start_incantation) (Steady-pay_stones w p)
        | inr (c, e) ↦
            rw (can, e, start_incantation)
              (Steady-answered w _ _
                (Steady-trans w paid _ (Steady-pay_stones w p) (Steady-schedule_end paid p c)))
      ]
]

pub Steady-incantation : (w : World) (p : ℕ) → Steady w (command_incantation w p).1
unfolding command_incantation
Steady-incantation w p = elim (Bool-cases (leb level_max (w.player_at p).level)) [
  | inl high ↦ rw high (Steady-respond w _)
  | inr low ↦ elim (Option-cases (players_here w p)) [
    | inl lost ↦ rw (low, lost, command_incantation) (Steady-hang w)
    | inr (on_tile, met) ↦ rw (low, met, command_incantation) (Steady-start w p on_tile)
  ]
]

Steady-random : (w : World) (lambda : ℕ) → Steady w (random_resource_count w lambda).1
unfolding random_resource_count
Steady-random w lambda =
    let m = w.machine in
    elim (Option-cases (count_draws m m.patience (m.exp_neg lambda) m.one w.rand_calls 0)) [
      | inl e ↦ rw (e, random_resource_count) (Steady-hang w)
      | inr (r, e) ↦
          rw (e, random_resource_count)
            (record {
              teams = refl;
              clients = refl;
              next_ptr = refl;
              players = λ c. refl;
              team_ids = λ q. refl;
              buffers = λ v. v;
            })
    ]

pub Steady-draw : (w : World) (d : SpawnCtx) → Steady w (draw_inventory w d).1
unfolding draw_inventory
Steady-draw w d =
    let w₁ = (random_resource_count w d.d_nourriture).1 in
    let w₂ = (random_resource_count w₁ d.d_linemate).1 in
    let w₃ = (random_resource_count w₂ d.d_deraumere).1 in
    let w₄ = (random_resource_count w₃ d.d_sibur).1 in
    let w₅ = (random_resource_count w₄ d.d_mendiane).1 in
    let w₆ = (random_resource_count w₅ d.d_phiras).1 in
    Steady-trans w w₁ _ (Steady-random w _) (
      Steady-trans w₁ w₂ _ (Steady-random w₁ _) (
        Steady-trans w₂ w₃ _ (Steady-random w₂ _) (
          Steady-trans w₃ w₄ _ (Steady-random w₃ _) (
            Steady-trans w₄ w₅ _ (Steady-random w₄ _)
              (Steady-trans w₅ w₆ _ (Steady-random w₅ _) (Steady-random w₆ _))))))

Steady-spawn_on : (w : World) (i : ℕ) → Steady w (spawn_on w i)
unfolding spawn_on
Steady-spawn_on w i = elim (Bool-cases (ltb 15 (inventory_sum (w.tile_at i).items))) [
  | inl rich ↦ rw rich (Steady-refl w)
  | inr poor ↦ rw poor (
      Steady-trans w (draw_inventory w w.ctx).1 _ (Steady-draw w w.ctx)
        (Steady-board (draw_inventory w w.ctx).1 _ (λ q. refl)))
]

Steady-spawn_loop : (w : World) (n i : ℕ) → Steady w (spawn_loop w n i)
unfolding spawn_loop
Steady-spawn_loop w zero i = Steady-refl w
Steady-spawn_loop w (suc n) i =
    let k = visited w ((w.ctx.next_idx + i) % (w.map_x * w.map_y)) in
    Steady-trans w (spawn_on w k) _ (Steady-spawn_on w k)
      (Steady-spawn_loop (spawn_on w k) n (i + 1))

Steady-rescheduled :
    (w : World) (batch : ℕ) (payload : Option ℕ) (arg : Option String)
    → Steady w (reschedule_spawn (advance w batch) payload arg)
unfolding reschedule_spawn advance
Steady-rescheduled w batch payload arg = record {
  teams = refl;
  clients = refl;
  next_ptr = refl;
  players = λ c. refl;
  team_ids = λ q. refl;
  buffers = λ v. (v.0, schedule-IsValid (some w.time) _ _ _ _ _ v.1);
}

pub Steady-spawn :
    (w : World) (payload : Option ℕ) (arg : Option String)
    → Steady w (game_spawn_resources w payload arg).1
unfolding game_spawn_resources
Steady-spawn w payload arg =
    let batch = batch_size (w.map_x * w.map_y) in
    Steady-trans w (spawn_loop w batch 0) _ (Steady-spawn_loop w batch 0)
      (Steady-rescheduled (spawn_loop w batch 0) batch payload arg)
