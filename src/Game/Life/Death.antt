-- ===== src/Game/Life/Death.antt =====
-- `game_player_die` keeps slots and teams in step, and finds what it looks for.
use zappy.Prelude.{
  ℕ, zero, suc, get_or, ◌+◌, ◌<◌, ◌≡◌, refl, ◌∙◌, ◌⊎◌, inl, inr, true, false, ltb, ◌==◌, Option,
  some, List, [], ◌∷◌, success, length, length-set, get_or-set_self, get_or-set_ne, arith,
  Bool-cases, ℕ-cases, ==_self, ==_ne, if◌then◌else◌,
}
use zappy.Board.Move.{remove-SamePlayers}
use zappy.Game.{World, Team, Reply, respond}
use zappy.Game.Replies.{respond-keeps}
use zappy.Game.Teams.{
  set_team, no_team, team_at, quit_team, team_remove_player_from_team, remove_client_from_server,
}
use zappy.Game.Life.{player_die, bury, eat, after_slot, after_team, server_remove_client}
use zappy.Game.Life.Seats.{count_team, sum_upto-same}
use zappy.Game.Life.Seated.{seat, seats, seat_of_player, Allocated, Seated, Seated-frame}
use zappy.Game.Life.Vacate.{holds, Cleared, clear_slot-finds, clear_slot-AllSlots}

server_remove_client-keeps :
    (w : World) (fd : ℕ)
    → (server_remove_client w fd).1 ≡ record w { leaving = (server_remove_client w fd).1.leaving }
unfolding server_remove_client
server_remove_client-keeps w fd = ground arith

Seated-remove_client : (w : World) (fd : ℕ) → Seated w → Seated (server_remove_client w fd).1
Seated-remove_client w fd s =
    rw (server_remove_client-keeps w fd) (Seated-frame w _ refl refl refl (λ c. refl) (λ q. refl) s)

Seated-respond : (w : World) (r : Reply) → Seated w → Seated (respond w r).1
Seated-respond w r s =
    rw (respond-keeps w r) (Seated-frame w _ refl refl refl (λ c. refl) (λ q. refl) s)

Seated-bury : (w : World) (p fd : ℕ) → Seated w → Seated (bury w p fd).1
unfolding bury
Seated-bury w p fd s = Seated-remove_client _ fd (
    Seated-respond _ _
      (Seated-frame w _ refl refl refl (λ c. refl) (remove-SamePlayers w.board p).team_id s))

Seated-eat : (w : World) (p : ℕ) → Seated w → Seated (eat w p)
Seated-eat w p s = Seated-frame w _ refl refl refl (λ c. refl) (λ q. ground arith) s

teams-bury : (w : World) (p fd : ℕ) → (bury w p fd).1.teams ≡ w.teams
unfolding bury
teams-bury w p fd = rw (server_remove_client-keeps _ fd, respond-keeps _ _) refl

player_die-eats :
    (w : World) (c p : ℕ)
    → ltb 0 (w.player_at p).inv.nourriture ≡ true
    → player_die w c p ≡ (success, eat w p)
unfolding player_die
player_die-eats w c p food = rw food refl

player_die-goes_on :
    (w l g : World) (c p : ℕ)
    → ltb 0 (w.player_at p).inv.nourriture ≡ false
    → remove_client_from_server w c ≡ (success, l)
    → team_remove_player_from_team l p ≡ (success, g)
    → player_die w c p ≡ bury g p (w.client_at c).socket_fd
unfolding player_die after_slot after_team
player_die-goes_on w l g c p hungry r q = rw (hungry, r, q) refl

-- A team that counts a player stands in the array.
known_team : (ts : List Team) (t : ℕ) → 0 < (get_or ts t no_team).current_players → t < length ts
known_team [] t h = absurd (omega arith)
known_team (x ∷ ts) zero h = omega arith
known_team (x ∷ ts) (suc t) h = omega (arith, known_team ts t h)

quit_team-counts :
    (t : Team)
    → 0 < t.current_players
    → ((quit_team t).0 ≡ success)
      × ((quit_team t).1.current_players + 1 ≡ t.current_players)
      × ((quit_team t).1.max_players ≡ t.max_players)
unfolding quit_team
quit_team-counts t h = ground arith

quit-team :
    (w : World) (p : ℕ)
    → team_remove_player_from_team w p ≡ (
      (quit_team (team_at w (w.player_at p).team_id)).0,
      set_team w (w.player_at p).team_id (quit_team (team_at w (w.player_at p).team_id)).1,
    )
unfolding team_remove_player_from_team
quit-team w p = refl

module _ (w : World) (c p : ℕ) (s : Seated w) (mine : (w.client_at c).player ≡ some p)
    (there : holds c w.clients ≡ true) where
  abbrev team : ℕ
  team = (w.player_at p).team_id

  found_slot : (rest : List (Option ℕ)) × Cleared (seat w) c w.clients rest
  found_slot = clear_slot-finds (seat w) c w.clients there

  abbrev left : World
  left = record w { clients = found_slot.0 }

  removed : remove_client_from_server w c ≡ (success, left)
  unfolding remove_client_from_server
  removed = rw (found_slot.1.found, remove_client_from_server) refl

  abbrev shrunk : Team
  shrunk = (quit_team (team_at w team)).1

  count-left :
      (t : ℕ) → count_team t (seats left) + (if team == t then 1 else 0) ≡ count_team t (seats w)
  count-left t = rw (← seat_of_player w c p mine) (found_slot.1.count t)

  some_play : 0 < (team_at w team).current_players
  some_play =
      let k : count_team team (seats left) + 1 ≡ count_team team (seats w) =
        rw (==_self team) at (count-left team) in
      omega (arith, s.counts team, k)

  quits :
      ((quit_team (team_at w team)).0 ≡ success)
      × (shrunk.current_players + 1 ≡ (team_at w team).current_players)
      × (shrunk.max_players ≡ (team_at w team).max_players)
  quits = quit_team-counts (team_at w team) some_play

  abbrev gone : World
  gone = set_team left team shrunk

  quit-gone : team_remove_player_from_team left p ≡ (success, gone)
  quit-gone = quit-team left p ∙ rw quits.0 refl

  team-gone : (t : ℕ) → team_at gone t ≡ (if team == t then shrunk else team_at w t)
  team-gone t = elim (ℕ-cases team t) [
    | inl here ↦
        rw (← here, ==_self team)
          (get_or-set_self w.teams team shrunk _ (known_team w.teams team some_play))
    | inr other ↦ rw (==_ne team t other) (get_or-set_ne w.teams team t shrunk _ other)
  ]

  current-gone :
      (t : ℕ)
      → (team_at gone t).current_players + (if team == t then 1 else 0)
        ≡ (team_at w t).current_players
  current-gone t = elim (ℕ-cases team t) [
    | inl here ↦ rw (team-gone t, ← here, ==_self team) quits.1
    | inr other ↦ rw (team-gone t, ==_ne team t other) (omega arith)
  ]

  max-gone : (t : ℕ) → (team_at gone t).max_players ≡ (team_at w t).max_players
  max-gone t = elim (ℕ-cases team t) [
    | inl here ↦ rw (team-gone t, ← here, ==_self team) quits.2
    | inr other ↦ rw (team-gone t, ==_ne team t other) refl
  ]

  Seated-gone : Seated gone
  Seated-gone = record {
    counts = λ t. omega (arith, current-gone t, count-left t, s.counts t);
    within = λ t. omega (arith, current-gone t, max-gone t, s.within t);
    room =
        rw (length-set w.teams team shrunk, found_slot.1.size)
          (rw
            (sum_upto-same (length w.teams) (λ t. (team_at gone t).max_players)
              (λ t. (team_at w t).max_players) (λ t h. max-gone t))
            s.room);
    teamed = rw (length-set w.teams team shrunk) (found_slot.1.teamed (length w.teams) s.teamed);
    allocated =
        clear_slot-AllSlots (Allocated w) c w.clients found_slot.0 found_slot.1.found s.allocated;
  }

  player_die-buries :
      ltb 0 (w.player_at p).inv.nourriture ≡ false
      → player_die w c p ≡ bury gone p (w.client_at c).socket_fd
  player_die-buries hungry = player_die-goes_on w left gone c p hungry removed quit-gone

-- `game_player_die` for a client in a slot, where every team counts its clients. With food it
-- eats: the call succeeds and nothing but the player changes. Without food the searches for the
-- slot and in the team succeed, the call goes on to bury the player, and its team counts one
-- player less, every other team the same. The invariant holds afterwards in both cases.
pub player_die-Seated :
    (w : World) (c p : ℕ)
    → Seated w
    → (w.client_at c).player ≡ some p
    → holds c w.clients ≡ true
    → let (status, w') = player_die w c p in
      Seated w'
      × (((0 < (w.player_at p).inv.nourriture) × (status ≡ success) × (w' ≡ eat w p))
          ⊎ (((w.player_at p).inv.nourriture ≡ 0)
              × ((t : ℕ)
                  → (team_at w' t).current_players + (if (w.player_at p).team_id == t then 1 else 0)
                    ≡ (team_at w t).current_players)))
player_die-Seated w c p s mine there = elim (Bool-cases (ltb 0 (w.player_at p).inv.nourriture)) [
  | inl food ↦ rw (player_die-eats w c p food) (Seated-eat w p s, inl (ground arith, refl, refl))
  | inr hungry ↦ rw (player_die-buries w c p s mine there hungry) (
    Seated-bury _ p _ (Seated-gone w c p s mine there),
    inr (
      ground arith,
      λ t.
          rw (teams-bury (gone w c p s mine there) p (w.client_at c).socket_fd)
            (current-gone w c p s mine there t),
    ),
  )
]
