-- ===== src/Game/Teams.antt =====
-- The players of a team and the slots of the clients.
use zappy.Prelude.{
  Bool, ℕ, ◌+◌, ◌-◌, ◌==◌, leb, if◌then◌else◌, Option, none, some, List, [], ◌∷◌, String, Status,
  success, error, get_or, set, replicate,
}
use zappy.Game.{World, Team}

-- `m_game_init_team`
unfoldable pub init_team : String → ℕ → Team
init_team name max_players = record {
  name = name;
  max_players = max_players;
  current_players = 0;
  players = replicate max_players 0;
}

-- A team that stands at no index of the array is never read by the code.
abbrev pub no_team : Team
no_team = record { name = ""; max_players = 0; current_players = 0; players = [] }

abbrev pub team_at : World → ℕ → Team
team_at w i = get_or w.teams i no_team

abbrev pub set_team : World → ℕ → Team → World
set_team w i t = record w { teams = set w.teams i t }

-- TEAM_IS_FULL
abbrev pub team_is_full : Team → Bool
team_is_full t = leb t.max_players t.current_players

-- `m_team_add_player_to_team` on the team of the player.
unfoldable pub join_team : Team → ℕ → Status × Team
join_team t id = if leb t.max_players t.current_players then (error, t) else (
  success,
  record t {
    players = set t.players t.current_players id;
    current_players = t.current_players + 1;
  },
)

-- `m_team_remove_player_from_team`: the slot that is cleared is the one behind the last player.
-- Where the team is full that slot lies behind the array; here such a write changes nothing.
unfoldable pub quit_team : Team → Status × Team
quit_team t = if t.current_players == 0 then (error, t) else (
  success,
  record t { players = set t.players t.current_players 0; current_players = t.current_players - 1 },
)

unfoldable pub team_add_player_to_team : World → ℕ → Status × World
unfolding join_team
team_add_player_to_team w p =
    let pl = w.player_at p in
    let (status, t) = join_team (team_at w pl.team_id) pl.id in (status, set_team w pl.team_id t)

unfoldable pub team_remove_player_from_team : World → ℕ → Status × World
unfolding quit_team
team_remove_player_from_team w p =
    let pl = w.player_at p in
    let (status, t) = quit_team (team_at w pl.team_id) in (status, set_team w pl.team_id t)

-- The loop of `m_add_client_to_server`: the first free slot; `none` if there is none.
unfoldable pub fill_slot : ℕ → List (Option ℕ) → Option (List (Option ℕ))
fill_slot c [] = none
fill_slot c (none ∷ slots) = some (some c ∷ slots)
fill_slot c (some d ∷ slots) = elim (fill_slot c slots) [
  | none ↦ none
  | some rest ↦ some (some d ∷ rest)
]

-- The loop of `m_remove_client_from_server`: the first slot that holds the pointer is cleared.
unfoldable pub clear_slot : ℕ → List (Option ℕ) → Option (List (Option ℕ))
clear_slot c [] = none
clear_slot c (none ∷ slots) = elim (clear_slot c slots) [
  | none ↦ none
  | some rest ↦ some (none ∷ rest)
]
clear_slot c (some d ∷ slots) =
    if d == c
    then some (none ∷ slots)
    else elim (clear_slot c slots) [ none ↦ none | some rest ↦ some (some d ∷ rest) ]

unfoldable pub add_client_to_server : World → ℕ → Status × World
unfolding fill_slot
add_client_to_server w c = elim (fill_slot c w.clients) [
  | none ↦ (error, w)
  | some slots ↦ (success, record w { clients = slots })
]

unfoldable pub remove_client_from_server : World → ℕ → Status × World
unfolding clear_slot
remove_client_from_server w c = elim (clear_slot c w.clients) [
  | none ↦ (error, w)
  | some slots ↦ (success, record w { clients = slots })
]
