-- ===== src/Game/Life/Seated.antt =====
-- The invariant that ties the slots of the clients to the counts of the teams.
use zappy.Prelude.{
  ℕ, ◌≤◌, ◌<◌, ◌≡◌, refl, Option, none, some, Option-cases, ap, ◌∙◌, sym, inl, inr, List, [], ◌∷◌,
  length,
}
use zappy.Board.{Player}
use zappy.Game.{World}
use zappy.Game.Teams.{team_at}
use zappy.Game.Life.Seats.{sum_upto, count_team, Teamed, seats_of}

abbrev pub team_of : (ℕ → Player) → Option ℕ → ℕ
team_of mem none = 0
team_of mem (some p) = (mem p).team_id

-- The team of a client.
abbrev pub seat : World → ℕ → ℕ
seat w c = team_of w.player_at (w.client_at c).player

abbrev pub seats : World → List (Option ℕ)
seats w = seats_of (seat w) w.clients

-- A client and its player lie in memory that has been allocated.
abbrev pub Allocated : World → ℕ → Type 0
Allocated w c = (c < w.next_ptr) × ((p : ℕ) → (w.client_at c).player ≡ some p → p < w.next_ptr)

abbrev pub AllSlots : (ℕ → Type 0) → List (Option ℕ) → Type 0
AllSlots P [] = Unit {0}
AllSlots P (none ∷ slots) = AllSlots P slots
AllSlots P (some c ∷ slots) = P c × AllSlots P slots

-- Each team counts the clients that are seated for it, no more than it admits; the slots are
-- enough for what all teams together admit.
pub record Seated (w : World) : Type 0 where
  pub counts : (t : ℕ) → (team_at w t).current_players ≡ count_team t (seats w)
  pub within : (t : ℕ) → (team_at w t).current_players ≤ (team_at w t).max_players
  pub room : sum_upto (length w.teams) (λ t. (team_at w t).max_players) ≤ length w.clients
  pub teamed : Teamed (length w.teams) (seats w)
  pub allocated : AllSlots (Allocated w) w.clients

pub seats_of-frame :
    (f g : ℕ → ℕ) (slots : List (Option ℕ))
    → AllSlots (λ c. f c ≡ g c) slots
    → seats_of f slots ≡ seats_of g slots
seats_of-frame f g [] h = refl
seats_of-frame f g (none ∷ slots) h = rw (seats_of-frame f g slots h)
seats_of-frame f g (some c ∷ slots) h = rw (h.0, seats_of-frame f g slots h.1)

pub AllSlots-map :
    (P Q : ℕ → Type 0) (slots : List (Option ℕ))
    → ((c : ℕ) → P c → Q c)
    → AllSlots P slots
    → AllSlots Q slots
AllSlots-map P Q [] f h = tt
AllSlots-map P Q (none ∷ slots) f h = AllSlots-map P Q slots f h
AllSlots-map P Q (some c ∷ slots) f h = (f c h.0, AllSlots-map P Q slots f h.1)

pub seat_of_player :
    (w : World) (c p : ℕ) → (w.client_at c).player ≡ some p → seat w c ≡ (w.player_at p).team_id
seat_of_player w c p e = ap (team_of w.player_at) e

-- A client whose player and whose player's team stay the same keeps its seat.
pub seat_same :
    (w w' : World) (c : ℕ)
    → (w'.client_at c).player ≡ (w.client_at c).player
    → ((p : ℕ)
        → (w.client_at c).player ≡ some p
        → (w'.player_at p).team_id ≡ (w.player_at p).team_id)
    → seat w' c ≡ seat w c
seat_same w w' c e h = elim (Option-cases (w.client_at c).player) [
  | inl none_ ↦ ap (team_of w'.player_at) (e ∙ none_) ∙ sym (ap (team_of w.player_at) none_)
  | inr (p, some_) ↦
      ap (team_of w'.player_at) (e ∙ some_) ∙ h p some_ ∙ sym (ap (team_of w.player_at) some_)
]

-- What the invariant depends on.
pub Seated-frame :
    (w w' : World)
    → w'.teams ≡ w.teams
    → w'.clients ≡ w.clients
    → w'.next_ptr ≡ w.next_ptr
    → ((c : ℕ) → (w'.client_at c).player ≡ (w.client_at c).player)
    → ((q : ℕ) → (w'.player_at q).team_id ≡ (w.player_at q).team_id)
    → Seated w
    → Seated w'
Seated-frame w w' et ec en hc hp s =
    let same : seats w' ≡ seats w =
      ap (seats_of (seat w')) ec
      ∙ seats_of-frame (seat w') (seat w) w.clients (
          AllSlots-map (Allocated w) (λ c. seat w' c ≡ seat w c) w.clients
            (λ c a. seat_same w w' c (hc c) (λ p e. hp p)) s.allocated) in
    record {
      counts = λ t. rw (et, same) (s.counts t);
      within = λ t. rw et (s.within t);
      room = rw (et, ec) s.room;
      teamed = rw (et, same) s.teamed;
      allocated = rw ec (
          AllSlots-map (Allocated w) (Allocated w') w.clients
            (λ c a. (rw en a.0, λ p e. rw en (a.1 p (sym (hc c) ∙ e)))) s.allocated);
    }
