-- ===== src/Game/Steady.antt =====
-- What the commands of game.c leave alone: the teams, the slots, and who plays for which team.
pub mod Commands
pub mod Rituals
pub mod Events
use zappy.Prelude.{
  ℕ, ◌≡◌, refl, ◌∙◌, arith, inl, inr, ◌==◌, ==_self, ==_ne, Bool-cases, ℕ-cases, if◌then◌else◌,
}
use zappy.Time.Valid.{IsValid}
use zappy.Board.{Board, Player, set_player}
use zappy.Board.Move.{SamePlayers}
use zappy.Game.{World, Client, Reply, respond, write_client, write_player, set_board}
use zappy.Game.Life.Seated.{Seated, Seated-frame}

-- Every event buffer, of a client and of the server, has the shape of one.
abbrev pub Buffered : World → Type 0
Buffered w = ((c : ℕ) → IsValid (w.client_at c).event_buffer) × IsValid w.event_buffer

pub record Steady (w w' : World) : Type 0 where
  pub teams : w'.teams ≡ w.teams
  pub clients : w'.clients ≡ w.clients
  pub next_ptr : w'.next_ptr ≡ w.next_ptr
  pub players : (c : ℕ) → (w'.client_at c).player ≡ (w.client_at c).player
  pub team_ids : (q : ℕ) → (w'.player_at q).team_id ≡ (w.player_at q).team_id
  pub buffers : Buffered w → Buffered w'

pub Steady-Seated : (w w' : World) → Steady w w' → Seated w → Seated w'
Steady-Seated w w' k s = Seated-frame w w' k.teams k.clients k.next_ptr k.players k.team_ids s

pub Steady-refl : (w : World) → Steady w w
Steady-refl w = record {
  teams = refl;
  clients = refl;
  next_ptr = refl;
  players = λ c. refl;
  team_ids = λ q. refl;
  buffers = λ v. v;
}

pub Steady-trans : (a b c : World) → Steady a b → Steady b c → Steady a c
Steady-trans a b c u v = record {
  teams = v.teams ∙ u.teams;
  clients = v.clients ∙ u.clients;
  next_ptr = v.next_ptr ∙ u.next_ptr;
  players = λ k. v.players k ∙ u.players k;
  team_ids = λ q. v.team_ids q ∙ u.team_ids q;
  buffers = λ b. v.buffers (u.buffers b);
}

respond_client :
    (w : World) (r : Reply) (c : ℕ)
    → Buffered w
    → IsValid ((respond w r).1.client_at c).event_buffer
unfolding respond
respond_client w r c v = elim (Bool-cases (w.machine.prints r)) [
  | inl prints ↦ rw prints (v.0 c)
  | inr fails ↦ rw fails (v.0 c)
]

respond_server : (w : World) (r : Reply) → Buffered w → IsValid (respond w r).1.event_buffer
unfolding respond
respond_server w r v = elim (Bool-cases (w.machine.prints r)) [
  | inl prints ↦ rw prints v.1
  | inr fails ↦ rw fails v.1
]

pub Steady-respond : (w : World) (r : Reply) → Steady w (respond w r).1
unfolding respond
Steady-respond w r = record {
  teams = ground arith;
  clients = ground arith;
  next_ptr = ground arith;
  players = λ c. ground arith;
  team_ids = λ q. ground arith;
  buffers = λ v. (λ c. respond_client w r c v, respond_server w r v);
}

-- A change of the board that keeps the players' teams.
pub Steady-board :
    (w : World) (b : Board)
    → ((q : ℕ) → (b.player_at q).team_id ≡ (w.player_at q).team_id)
    → Steady w (set_board w b)
Steady-board w b h = record {
  teams = refl;
  clients = refl;
  next_ptr = refl;
  players = λ c. refl;
  team_ids = h;
  buffers = λ v. (v.0, v.1);
}

-- A write to a player that keeps its team.
pub Steady-write_player :
    (w : World) (p : ℕ) (v : Player)
    → v.team_id ≡ (w.player_at p).team_id
    → Steady w (write_player w p v)
Steady-write_player w p v e = Steady-board w (set_player w.board p v) (λ q. ground (arith, e))

-- A write to a client that keeps its player and the shape of its buffer.
pub Steady-write_client :
    (w : World) (c : ℕ) (v : Client)
    → v.player ≡ (w.client_at c).player
    → (IsValid (w.client_at c).event_buffer → IsValid v.event_buffer)
    → Steady w (write_client w c v)
Steady-write_client w c v e shape = record {
  teams = refl;
  clients = refl;
  next_ptr = refl;
  players = λ d. ground (arith, e);
  team_ids = λ q. refl;
  buffers = λ b. (
    λ d. elim (ℕ-cases c d) [
      | inl here ↦ rw (← here, ==_self c) (shape (b.0 c))
      | inr other ↦ rw (==_ne c d other) (b.0 d)
    ],
    b.1,
  );
}
