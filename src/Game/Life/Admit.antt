-- ===== src/Game/Life/Admit.antt =====
-- `game_register_player` on a team with room: a slot is free, and the team takes the player.
use zappy.Prelude.{
  some_inj, ℕ, suc, ◌+◌, ◌≤◌, ◌<◌, ◌≡◌, refl, sym, ap, ◌∙◌, subst, inl, inr, false, ◌==◌, Option,
  none, some, List, [], ◌∷◌, length, length-set, get_or-set_self, get_or-set_ne, set, arith,
  Option-cases, ℕ-cases, ==_self, ==_ne, if◌then◌else◌,
}
use zappy.Board.{map_index}
use zappy.Board.Move.{add-SamePlayers}
use zappy.Game.{World, Team}
use zappy.Game.Teams.{
  set_team, team_at, join_team, team_add_player_to_team, fill_slot, add_client_to_server,
}
use zappy.Game.Life.{new_player, allocate, enter_map, spawn_player}
use zappy.Game.Life.Seats.{
  sum_upto, count_team, taken, Teamed, sum_upto-taken, sum_upto-lt, sum_upto-same, seats_of,
  fill_slot-fits,
}
use zappy.Game.Life.Seated.{
  seat, seats, seat_same, seat_of_player, Allocated, AllSlots, AllSlots-map, seats_of-frame, Seated,
}

team_add-team :
    (w : World) (p id fd : ℕ)
    → (w.player_at p).team_id ≡ id
    → (w.player_at p).id ≡ fd
    → (team_add_player_to_team w p).1 ≡ set_team w id (join_team (team_at w id) fd).1
unfolding team_add_player_to_team
team_add-team w p id fd e f = rw (e, f) refl

add_client-slot :
    (w : World) (c : ℕ) (rest : List (Option ℕ))
    → fill_slot c w.clients ≡ some rest
    → (add_client_to_server w c).1 ≡ record w { clients = rest }
unfolding add_client_to_server
add_client-slot w c rest e = rw (e, add_client_to_server)

fill_slot-AllSlots :
    (P : ℕ → Type 0) (c : ℕ) (slots rest : List (Option ℕ))
    → fill_slot c slots ≡ some rest
    → P c
    → AllSlots P slots
    → AllSlots P rest
unfolding fill_slot
fill_slot-AllSlots P c [] rest e new old = absurd (ground arith)
fill_slot-AllSlots P c (none ∷ slots) rest e new old = subst (AllSlots P) (some_inj e) (new, old)
fill_slot-AllSlots P c (some d ∷ slots) rest e new old = elim (Option-cases (fill_slot c slots)) [
  | inl full ↦ absurd (ground (arith, rw (full, fill_slot) at e))
  | inr (r, free) ↦
      subst (AllSlots P) (some_inj (rw (free, fill_slot) at e))
        (old.0, fill_slot-AllSlots P c slots r free new old.1)
]

module _ (w : World) (fd id : ℕ) (s : Seated w) (known : id < length w.teams)
    (open_ : (team_at w id).current_players < (team_at w id).max_players) where
  abbrev c : ℕ
  c = w.next_ptr

  abbrev p : ℕ
  p = w.next_ptr + 1

  abbrev entered : World
  entered = enter_map (allocate w fd id) p

  team-entered : (q : ℕ) → (entered.player_at q).team_id ≡ ((allocate w fd id).player_at q).team_id
  team-entered q =
      let w₁ = allocate w fd id in
      (add-SamePlayers w₁.board (map_index w₁.board (w₁.player_at p).pos) p).team_id q

  seat-old : (d : ℕ) → Allocated w d → seat entered d ≡ seat w d
  unfolding allocate
  seat-old d a =
      seat_same w entered d (let other : (c == d) ≡ false = ground (arith, a.0) in rw other refl)
        (λ q e. let ne : (p == q) ≡ false = ground (arith, a.1 q e) in team-entered q ∙ rw ne refl)

  seat-new : seat entered c ≡ id
  unfolding allocate new_player
  seat-new = seat_of_player entered c p (rw (==_self c) refl) ∙ team-entered p ∙ rw (==_self p) refl

  seats-entered : seats_of (seat entered) w.clients ≡ seats w
  seats-entered =
      seats_of-frame (seat entered) (seat w) w.clients
        (AllSlots-map (Allocated w) (λ d. seat entered d ≡ seat w d) w.clients seat-old s.allocated)

  a_slot_is_free : taken (seats_of (seat entered) w.clients) < length w.clients
  a_slot_is_free =
      let n = length w.teams in
      let all : sum_upto n (λ t. count_team t (seats w)) ≡ taken (seats w) =
        sum_upto-taken n (seats w) s.teamed in
      let fits : (t : ℕ) → t < n → count_team t (seats w) ≤ (team_at w t).max_players =
        λ t h. omega (arith, s.counts t, s.within t) in
      let one_left : count_team id (seats w) < (team_at w id).max_players =
        omega (arith, s.counts id, open_) in
      let less =
        sum_upto-lt n (λ t. count_team t (seats w)) (λ t. (team_at w t).max_players) id fits known
          one_left in
      rw seats-entered (omega (arith, all, less, s.room))

  -- The player's team takes it.
  abbrev grown : Team
  grown = (join_team (team_at w id) fd).1

  joined : (team_add_player_to_team entered p).1 ≡ record entered { teams = set w.teams id grown }
  unfolding allocate new_player
  joined =
      let w₁ = allocate w fd id in
      team_add-team entered p id fd (team-entered p ∙ rw (==_self p) refl) (
        (add-SamePlayers w₁.board (map_index w₁.board (w₁.player_at p).pos) p).id p
        ∙ rw (==_self p) refl)

  grown-counts :
      (grown.current_players ≡ suc (team_at w id).current_players)
      × (grown.max_players ≡ (team_at w id).max_players)
  unfolding join_team
  grown-counts = ground arith

  pub slots_after :
      (rest : List (Option ℕ)) × (fill_slot c w.clients ≡ some rest)
      × (length rest ≡ length w.clients)
      × ((t : ℕ)
          → count_team t (seats_of (seat entered) rest)
            ≡ count_team t (seats_of (seat entered) w.clients)
              + (if seat entered c == t then 1 else 0))
      × ((n : ℕ)
          → seat entered c < n
          → Teamed n (seats_of (seat entered) w.clients)
          → Teamed n (seats_of (seat entered) rest))
  slots_after = fill_slot-fits (seat entered) c w.clients a_slot_is_free

  abbrev pub after : World
  after = record entered { teams = set w.teams id grown; clients = slots_after.0 }

  pub spawn-after : spawn_player w fd id ≡ after
  unfolding spawn_player allocate
  spawn-after =
      ap (λ v. (add_client_to_server v c).1) joined
      ∙ add_client-slot (record entered { teams = set w.teams id grown }) c slots_after.0
          slots_after.1

  team-after : (t : ℕ) → team_at after t ≡ (if id == t then grown else team_at w t)
  team-after t = elim (ℕ-cases id t) [
    | inl here ↦ rw (← here, ==_self id) (get_or-set_self w.teams id grown _ known)
    | inr other ↦ rw (==_ne id t other) (get_or-set_ne w.teams id t grown _ other)
  ]

  pub count-after :
      (t : ℕ) → count_team t (seats after) ≡ count_team t (seats w) + (if id == t then 1 else 0)
  count-after t = slots_after.3 t ∙ rw (seat-new, seats-entered) refl

  pub current-after :
      (t : ℕ)
      → (team_at after t).current_players
        ≡ (team_at w t).current_players + (if id == t then 1 else 0)
  current-after t = elim (ℕ-cases id t) [
    | inl here ↦ rw (team-after t, ← here, ==_self id) (omega (arith, grown-counts.0))
    | inr other ↦ rw (team-after t, ==_ne id t other) (omega arith)
  ]

  max-after : (t : ℕ) → (team_at after t).max_players ≡ (team_at w t).max_players
  max-after t = elim (ℕ-cases id t) [
    | inl here ↦ rw (team-after t, ← here, ==_self id) grown-counts.1
    | inr other ↦ rw (team-after t, ==_ne id t other) refl
  ]

  within-after : (t : ℕ) → (team_at after t).current_players ≤ (team_at after t).max_players
  within-after t = elim (ℕ-cases id t) [
    | inl here ↦ rw (max-after t, current-after t, ← here, ==_self id) (omega (arith, open_))
    | inr other ↦ rw (max-after t, current-after t, ==_ne id t other) (omega (arith, s.within t))
  ]

  Allocated-old : (d : ℕ) → Allocated w d → Allocated after d
  unfolding allocate
  Allocated-old d a =
      let other : (c == d) ≡ false = ground (arith, a.0) in
      rw other (omega (arith, a.0), λ q e. omega (arith, a.1 q e))

  Allocated-new : Allocated after c
  unfolding allocate
  Allocated-new = rw (==_self c) (omega arith, λ q e. let f : p ≡ q = cc in omega (arith, f))

  pub Seated-after : Seated after
  Seated-after = record {
    counts = λ t. current-after t ∙ rw (s.counts t) refl ∙ sym (count-after t);
    within = within-after;
    room =
        rw (length-set w.teams id grown, slots_after.2)
          (rw
            (sum_upto-same (length w.teams) (λ t. (team_at after t).max_players)
              (λ t. (team_at w t).max_players) (λ t h. max-after t))
            s.room);
    teamed =
        rw (length-set w.teams id grown)
          (slots_after.4 (length w.teams) (rw seat-new known) (rw seats-entered s.teamed));
    allocated =
        fill_slot-AllSlots (Allocated after) c w.clients slots_after.0 slots_after.1 Allocated-new
          (AllSlots-map (Allocated w) (Allocated after) w.clients Allocated-old s.allocated);
  }
