-- ===== src/Game/Run/Safe.antt =====
-- In every state that the game can come to, slots and teams are in step.
use zappy.Prelude.{
  ℕ, zero, suc, ◌+◌, ◌≡◌, refl, inl, inr, true, Option, none, some, String, List, [], ◌∷◌, length,
  get_or, arith, Bool-cases, Option-cases,
}
use zappy.Time.{is_due}
use zappy.Time.Valid.{schedule-IsValid}
use zappy.Game.{World, get_client_from_fd}
use zappy.Game.Life.{
  find_command, command_messages, game_register_player, game_execute_command, game_kill_player,
  game_player_die,
}
use zappy.Game.Life.Seated.{Seated, Allocated, AllSlots-map}
use zappy.Game.Life.Vacate.{holds}
use zappy.Game.Life.Register.{register-Seated}
use zappy.Game.Life.Death.{player_die-Seated}
use zappy.Game.Play.{player_is_alive, serve_player, serve_client, serve_slot, play_loop, game_play}
use zappy.Game.Init.Ready.{game_init-Seated}
use zappy.Game.Steady.{Steady-Seated, Steady-write_client, Steady-write_player}
use zappy.Game.Steady.Events.{Steady-client_event, Steady-server_event}
use zappy.Game.Run.{
  Step, registers, commands, disconnects, tells, opens, closes, allocates, ticks, plays, Reachable,
  starts, goes_on,
}

get_or-holds :
    (slots : List (Option ℕ)) (i c : ℕ) → get_or slots i none ≡ some c → holds c slots ≡ true
get_or-holds [] i c e = absurd (ground arith)
get_or-holds (none ∷ slots) zero c e = absurd (ground arith)
get_or-holds (some d ∷ slots) zero c e = ground arith
get_or-holds (none ∷ slots) (suc i) c e = get_or-holds slots i c e
get_or-holds (some d ∷ slots) (suc i) c e = ground (arith, get_or-holds slots i c e)

Seated-die :
    (w : World) (c p : ℕ)
    → Seated w
    → (w.client_at c).player ≡ some p
    → holds c w.clients ≡ true
    → Seated (game_player_die w c).1
unfolding game_player_die
Seated-die w c p s mine there = rw (mine, game_player_die) (player_die-Seated w c p s mine there).0

Seated-serve_player :
    (w : World) (c p : ℕ)
    → Seated w
    → (w.client_at c).player ≡ some p
    → holds c w.clients ≡ true
    → Seated (serve_player w c p)
unfolding serve_player
Seated-serve_player w c p s mine there = elim (Bool-cases (player_is_alive w p)) [
  | inr dead ↦ rw dead (Seated-die w c p s mine there)
  | inl alive ↦ elim (Bool-cases (is_due w.time.current_time_units (w.client_at c).event_buffer)) [
    | inl due ↦ rw (alive, due) (Steady-Seated w _ (Steady-client_event c w.time w) s)
    | inr early ↦ rw (alive, early) s
  ]
]

Seated-hung : (w : World) → Seated w → Seated (record w { hung = true })
Seated-hung w s =
    Steady-Seated w _
      (record {
        teams = refl;
        clients = refl;
        next_ptr = refl;
        players = λ c. refl;
        team_ids = λ q. refl;
        buffers = λ v. v;
      })
      s

Seated-serve_client :
    (w : World) (c : ℕ) → Seated w → holds c w.clients ≡ true → Seated (serve_client w c)
unfolding serve_client
Seated-serve_client w c s there = elim (Option-cases (w.client_at c).player) [
  | inl no_player ↦ rw (no_player, serve_client) (Seated-hung w s)
  | inr (p, mine) ↦ rw (mine, serve_client) (Seated-serve_player w c p s mine there)
]

Seated-serve_slot :
    (w : World) (slot : Option ℕ)
    → Seated w
    → ((c : ℕ) → slot ≡ some c → holds c w.clients ≡ true)
    → Seated (serve_slot w slot)
Seated-serve_slot w none s h = s
Seated-serve_slot w (some c) s h = Seated-serve_client w c s (h c refl)

Seated-play_loop : (w : World) (n i : ℕ) → Seated w → Seated (play_loop w n i)
unfolding play_loop
Seated-play_loop w zero i s = s
Seated-play_loop w (suc n) i s =
    Seated-play_loop (serve_slot w (get_or w.clients i none)) n (i + 1)
      (Seated-serve_slot w (get_or w.clients i none) s (λ c e. get_or-holds w.clients i c e))

Seated-play : (w : World) → Seated w → Seated (game_play w).1
unfolding game_play
Seated-play w s =
    let played = play_loop w (length w.clients) 0 in
    Steady-Seated played _ (Steady-server_event played.time played)
      (Seated-play_loop w (length w.clients) 0 s)

Seated-execute :
    (w : World) (fd : ℕ) (cmd : String) (arg : Option String)
    → Seated w
    → Seated (game_execute_command w fd cmd arg).1
unfolding game_execute_command
Seated-execute w fd cmd arg s = elim (Option-cases (get_client_from_fd w fd)) [
  | inl gone ↦ rw (gone, game_execute_command) s
  | inr (c, here) ↦ elim (Option-cases (find_command cmd command_messages)) [
    | inl unknown ↦ rw (here, unknown, game_execute_command) s
    | inr (k, known) ↦
        rw (here, known, game_execute_command)
          (Steady-Seated w _
            (Steady-write_client w c _ refl (schedule-IsValid (some w.time) _ _ _ _ _)) s)
  ]
]

Seated-kill : (w : World) (fd : ℕ) → Seated w → Seated (game_kill_player w fd).1
unfolding game_kill_player
Seated-kill w fd s = elim (Option-cases (get_client_from_fd w fd)) [
  | inl gone ↦ rw (gone, game_kill_player) s
  | inr (c, here) ↦ elim (Option-cases (w.client_at c).player) [
    | inl no_player ↦ rw (here, no_player, game_kill_player) s
    | inr (p, mine) ↦
        rw (here, mine, game_kill_player) (Steady-Seated w _ (Steady-write_player w p _ refl) s)
  ]
]

Seated-register :
    (w : World) (fd : ℕ) (name : String) → Seated w → Seated (game_register_player w fd name).1
Seated-register w fd name s = elim (register-Seated w fd name s) [
  | inl (e, same) ↦ rw same s
  | inr (e, seated, rest) ↦ seated
]

Seated-allocate : (w : World) → Seated w → Seated (record w { next_ptr = w.next_ptr + 1 })
Seated-allocate w s = record {
  counts = s.counts;
  within = s.within;
  room = s.room;
  teamed = s.teamed;
  allocated =
      AllSlots-map (Allocated w) (Allocated (record w { next_ptr = w.next_ptr + 1 })) w.clients
        (λ c a. (omega (arith, a.0), λ p e. omega (arith, a.1 p e))) s.allocated;
}

pub Step-Seated : {w w' : World} → Step w w' → Seated w → Seated w'
Step-Seated (registers w fd name) s = Seated-register w fd name s
Step-Seated (commands w fd cmd arg) s = Seated-execute w fd cmd arg s
Step-Seated (disconnects w fd) s = Seated-kill w fd s
Step-Seated (tells w m) s =
    Steady-Seated w _
      (record {
        teams = refl;
        clients = refl;
        next_ptr = refl;
        players = λ c. refl;
        team_ids = λ q. refl;
        buffers = λ v. v;
      })
      s
Step-Seated (opens w n) s =
    Steady-Seated w _
      (record {
        teams = refl;
        clients = refl;
        next_ptr = refl;
        players = λ c. refl;
        team_ids = λ q. refl;
        buffers = λ v. v;
      })
      s
Step-Seated (closes w) s =
    Steady-Seated w _
      (record {
        teams = refl;
        clients = refl;
        next_ptr = refl;
        players = λ c. refl;
        team_ids = λ q. refl;
        buffers = λ v. v;
      })
      s
Step-Seated (allocates w) s = Seated-allocate w s
Step-Seated (ticks w api) s =
    Steady-Seated w _
      (record {
        teams = refl;
        clients = refl;
        next_ptr = refl;
        players = λ c. refl;
        team_ids = λ q. refl;
        buffers = λ v. v;
      })
      s
Step-Seated (plays w) s = Seated-play w s

-- In every state that the game can come to, whatever the players and the network do: each team
-- counts the clients in the slots that play for it, no team has more players than it admits, and
-- the slots are enough for all that the teams admit.
pub Reachable-Seated : {w : World} → Reachable w → Seated w
Reachable-Seated (starts v s width height n teams) = game_init-Seated v s width height n teams
Reachable-Seated (goes_on r step) = Step-Seated step (Reachable-Seated r)
