-- ===== src/Game/Init/Ready.antt =====
-- The slots and teams that `game_init` leaves.
use native.Mathlib.Nat.{div-add-mod}
use zappy.Prelude.{
  ℕ, zero, suc, ◌*◌, ◌/◌, ◌≤◌, ◌≡◌, refl, inl, inr, Option, none, List, [], ◌∷◌, map, String,
  length, length-replicate, replicate, get_or, arith, Bool-cases,
}
use zappy.Game.{World, Team}
use zappy.Game.Teams.{init_team, no_team}
use zappy.Game.Init.{Settings, game_init}
use zappy.Game.Life.Seats.{sum_upto, count_team, Teamed, seats_of}
use zappy.Game.Life.Seated.{seat, AllSlots, Allocated, Seated}

abbrev fresh : ℕ → List String → List Team
fresh k names = map (λ name. init_team name k) names

fresh-team :
    (k : ℕ) (names : List String) (t : ℕ)
    → ((get_or (fresh k names) t no_team).current_players ≡ 0)
      × ((get_or (fresh k names) t no_team).max_players ≤ k)
unfolding init_team
fresh-team k [] t = (refl, omega arith)
fresh-team k (n ∷ names) zero = (refl, omega arith)
fresh-team k (n ∷ names) (suc t) = fresh-team k names t

length-fresh : (k : ℕ) (names : List String) → length (fresh k names) ≡ length names
length-fresh k [] = refl
length-fresh k (n ∷ names) = omega (arith, length-fresh k names)

sum_upto-bound : (n k : ℕ) (f : ℕ → ℕ) → ((t : ℕ) → f t ≤ k) → sum_upto n f ≤ n * k
sum_upto-bound zero k f h = omega arith
sum_upto-bound (suc n) k f h = grind (arith, h n, sum_upto-bound n k f h)

share_le : (n k : ℕ) → n * (k / n) ≤ k
share_le n k = omega (arith, div-add-mod k n)

module _ (f : ℕ → ℕ) where
  count_team-free : (n t : ℕ) → count_team t (seats_of f (replicate n none)) ≡ 0
  count_team-free zero t = refl
  count_team-free (suc n) t = count_team-free n t

  Teamed-free : (n m : ℕ) → Teamed m (seats_of f (replicate n none))
  Teamed-free zero m = tt
  Teamed-free (suc n) m = Teamed-free n m

AllSlots-free : (P : ℕ → Type 0) (n : ℕ) → AllSlots P (replicate n none)
AllSlots-free P zero = tt
AllSlots-free P (suc n) = AllSlots-free P n

abbrev empty_slot : Option ℕ
empty_slot = none

-- Empty slots and fresh teams that share them.
Seated-fresh :
    (w : World) (teams : List String) (nb_clients : ℕ)
    → w.clients ≡ replicate nb_clients none
    → w.teams ≡ fresh (nb_clients / length teams) teams
    → Seated w
Seated-fresh w teams nb_clients ec et =
    let k = nb_clients / length teams in
    record {
      counts = λ t. rw (et, ec, count_team-free (seat w) nb_clients t) (fresh-team k teams t).0;
      within = λ t. rw et (omega (arith, (fresh-team k teams t).0));
      room =
          rw (et, ec, length-fresh k teams, length-replicate nb_clients empty_slot)
            (omega (
              arith,
              sum_upto-bound (length teams) k (λ t. (get_or (fresh k teams) t no_team).max_players)
                  (λ t. (fresh-team k teams t).1),
              share_le (length teams) nb_clients,
            ));
      teamed = rw (et, ec) (Teamed-free (seat w) nb_clients (length (fresh k teams)));
      allocated = rw ec (AllSlots-free (Allocated w) nb_clients);
    }

-- `game_init` with as many teams as it is told: the slots of the clients are enough for all the
-- players that the teams admit, whatever the two numbers are, and every team counts 0 players.
pub game_init-Seated :
    (w : World) (s : Settings) (width height nb_clients : ℕ) (teams : List String)
    → Seated (game_init w s width height teams nb_clients (length teams)).1
unfolding game_init
game_init-Seated w s width height nb_clients teams = elim (Bool-cases s.respawn_resources) [
  | inl later ↦ rw later (Seated-fresh _ teams nb_clients refl refl)
  | inr never ↦ rw never (Seated-fresh _ teams nb_clients refl refl)
]
