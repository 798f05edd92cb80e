-- ===== src/Game/Life/Register.antt =====
-- `game_register_player` keeps slots and teams in step.
use text.Mathlib.Text.{◌==◌ as str_eq}
use zappy.Prelude.{
  ℕ, ◌+◌, ◌<◌, ◌≡◌, refl, ◌⊎◌, inl, inr, ◌==◌, some, List, [], ◌∷◌, String, success, error, length,
  arith, Bool-cases, Option-cases, if◌then◌else◌,
}
use zappy.Game.{World, Team, find_team, get_team_id}
use zappy.Game.Teams.{team_at, team_is_full}
use zappy.Game.Life.{game_register_player}
use zappy.Game.Life.Seats.{count_team}
use zappy.Game.Life.Seated.{seats, Seated}
use zappy.Game.Life.Admit.{spawn-after, Seated-after, current-after, count-after}

-- A team that is found is in the array.
find_team-lt :
    (name : String) (ts : List Team) (i k : ℕ) → find_team name ts i ≡ some k → k < i + length ts
unfolding find_team
find_team-lt name [] i k e = absurd (ground arith)
find_team-lt name (t ∷ ts) i k e = elim (Bool-cases (str_eq t.name name)) [
  | inl here ↦ ground arith
  | inr other ↦
      let far = find_team-lt name ts (i + 1) k (rw (other, find_team) at e) in omega (arith, far)
]

get_team_id-lt :
    (w : World) (name : String) (k : ℕ) → get_team_id w name ≡ some k → k < length w.teams
unfolding get_team_id
get_team_id-lt w name k e = omega (arith, find_team-lt name w.teams 0 k e)

-- `game_register_player` where every team counts its clients and the slots are enough: either it
-- returns an error, the team being unknown or full, and changes nothing, or it succeeds and the
-- calls whose results it ignores have succeeded too: the team has one player more, one more slot
-- is taken for that team and none for another, and the invariant still holds.
pub register-Seated :
    (w : World) (fd : ℕ) (name : String)
    → Seated w
    → let (status, w') = game_register_player w fd name in
      ((status ≡ error) × (w' ≡ w))
      ⊎ ((status ≡ success)
          × Seated w'
          × ((id : ℕ) × (get_team_id w name ≡ some id)
              × ((t : ℕ)
                  → ((team_at w' t).current_players
                      ≡ (team_at w t).current_players + (if id == t then 1 else 0))
                    × (count_team t (seats w')
                        ≡ count_team t (seats w) + (if id == t then 1 else 0)))))
unfolding game_register_player
register-Seated w fd name s = elim (Option-cases (get_team_id w name)) [
  | inl unknown ↦ rw (unknown, game_register_player) (inl (refl, refl))
  | inr (id, known) ↦ elim (Bool-cases (team_is_full (team_at w id))) [
    | inl full ↦ rw (known, game_register_player, full) (inl (refl, refl))
    | inr open_ ↦
        let lt = get_team_id-lt w name id known in
        let free : (team_at w id).current_players < (team_at w id).max_players = ground arith in
        let small : id < length w.teams = lt in
        rw (known, game_register_player, open_, spawn-after w fd id s small free)
          (inr (
            refl,
            Seated-after w fd id s small free,
            (
              id,
              refl,
              λ t. (current-after w fd id s small free t, count-after w fd id s small free t),
            ),
          ))
  ]
]
