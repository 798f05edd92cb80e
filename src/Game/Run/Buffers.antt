-- ===== src/Game/Run/Buffers.antt =====
-- Every event buffer keeps its shape, whatever the players and the network do.
use zappy.Prelude.{
  ℕ, zero, suc, ◌+◌, refl, ltb, inl, inr, Option, none, some, String, length, get_or, Bool-cases,
  Option-cases, ℕ-cases, ==_self, ==_ne, Status, success, error,
}
use zappy.Time.{is_due}
use zappy.Time.Valid.{zero_buffer-IsValid, schedule-IsValid}
use zappy.Game.{World, get_client_from_fd, get_team_id}
use zappy.Game.Teams.{
  team_at, team_is_full, team_add_player_to_team, team_remove_player_from_team, fill_slot,
  clear_slot, add_client_to_server, remove_client_from_server,
}
use zappy.Game.Life.{
  allocate, enter_map, spawn_player, game_register_player, find_command, command_messages,
  game_execute_command, game_kill_player, server_remove_client, bury, after_team, after_slot,
  player_die, game_player_die,
}
use zappy.Game.Play.{player_is_alive, serve_player, serve_client, serve_slot, play_loop, game_play}
use zappy.Game.Steady.{Buffered, Steady-write_client, Steady-respond}
use zappy.Game.Steady.Events.{Steady-client_event, Steady-server_event}
use zappy.Game.Run.{
  Step, registers, commands, disconnects, tells, opens, closes, allocates, ticks, plays, Steps,
  stays, then_,
}

Buffered-allocate : (w : World) (fd id : ℕ) → Buffered w → Buffered (allocate w fd id)
unfolding allocate
Buffered-allocate w fd id v = (
  λ d. elim (ℕ-cases w.next_ptr d) [
    | inl here ↦ rw (here, ==_self d) zero_buffer-IsValid
    | inr other ↦ rw (==_ne w.next_ptr d other) (v.0 d)
  ],
  v.1,
)

Buffered-add_client : (w : World) (c : ℕ) → Buffered w → Buffered (add_client_to_server w c).1
unfolding add_client_to_server
Buffered-add_client w c v = elim (Option-cases (fill_slot c w.clients)) [
  | inl full ↦ rw (full, add_client_to_server) v
  | inr (slots, found) ↦ rw (found, add_client_to_server) v
]

Buffered-remove_client :
    (w : World) (c : ℕ) → Buffered w → Buffered (remove_client_from_server w c).1
unfolding remove_client_from_server
Buffered-remove_client w c v = elim (Option-cases (clear_slot c w.clients)) [
  | inl gone ↦ rw (gone, remove_client_from_server) v
  | inr (slots, found) ↦ rw (found, remove_client_from_server) v
]

Buffered-spawn : (w : World) (fd id : ℕ) → Buffered w → Buffered (spawn_player w fd id)
unfolding spawn_player team_add_player_to_team
Buffered-spawn w fd id v =
    let entered = enter_map (allocate w fd id) (w.next_ptr + 1) in
    Buffered-add_client (team_add_player_to_team entered (w.next_ptr + 1)).1 w.next_ptr
      (Buffered-allocate w fd id v)

Buffered-register :
    (w : World) (fd : ℕ) (name : String) → Buffered w → Buffered (game_register_player w fd name).1
unfolding game_register_player
Buffered-register w fd name v = elim (Option-cases (get_team_id w name)) [
  | inl no_team ↦ rw (no_team, game_register_player) v
  | inr (id, found) ↦ elim (Bool-cases (team_is_full (team_at w id))) [
    | inl full ↦ rw (found, full, game_register_player) v
    | inr room ↦ rw (found, room, game_register_player) (Buffered-spawn w fd id v)
  ]
]

Buffered-execute :
    (w : World) (fd : ℕ) (cmd : String) (arg : Option String)
    → Buffered w
    → Buffered (game_execute_command w fd cmd arg).1
unfolding game_execute_command
Buffered-execute w fd cmd arg v = elim (Option-cases (get_client_from_fd w fd)) [
  | inl gone ↦ rw (gone, game_execute_command) v
  | inr (c, here) ↦ elim (Option-cases (find_command cmd command_messages)) [
    | inl unknown ↦ rw (here, unknown, game_execute_command) v
    | inr (k, known) ↦
        rw (here, known, game_execute_command)
          ((Steady-write_client w c _ refl (schedule-IsValid (some w.time) _ _ _ _ _)).buffers v)
  ]
]

Buffered-kill : (w : World) (fd : ℕ) → Buffered w → Buffered (game_kill_player w fd).1
unfolding game_kill_player
Buffered-kill w fd v = elim (Option-cases (get_client_from_fd w fd)) [
  | inl gone ↦ rw (gone, game_kill_player) v
  | inr (c, here) ↦ elim (Option-cases (w.client_at c).player) [
    | inl no_player ↦ rw (here, no_player, game_kill_player) v
    | inr (p, mine) ↦ rw (here, mine, game_kill_player) v
  ]
]

Buffered-leaving : (w : World) (fd : ℕ) → Buffered w → Buffered (server_remove_client w fd).1
unfolding server_remove_client
Buffered-leaving w fd v = elim (Bool-cases (ltb w.max_fd fd)) [
  | inl beyond ↦ rw beyond v
  | inr known ↦ rw known v
]

Buffered-bury : (w : World) (p fd : ℕ) → Buffered w → Buffered (bury w p fd).1
unfolding bury
Buffered-bury w p fd v = Buffered-leaving _ fd ((Steady-respond _ _).buffers v)

Buffered-after_team :
    (q : Status × World) (p fd : ℕ) → Buffered q.1 → Buffered (after_team q p fd).1
unfolding after_team
Buffered-after_team (error, w) p fd v = v
Buffered-after_team (success, w) p fd v = Buffered-bury w p fd v

Buffered-after_slot :
    (q : Status × World) (p fd : ℕ) → Buffered q.1 → Buffered (after_slot q p fd).1
unfolding after_slot team_remove_player_from_team
Buffered-after_slot (error, w) p fd v = v
Buffered-after_slot (success, w) p fd v =
    Buffered-after_team (team_remove_player_from_team w p) p fd v

Buffered-player_die : (w : World) (c p : ℕ) → Buffered w → Buffered (player_die w c p).1
unfolding player_die
Buffered-player_die w c p v = elim (Bool-cases (ltb 0 (w.player_at p).inv.nourriture)) [
  | inl fed ↦ rw fed v
  | inr starved ↦ rw starved (
      Buffered-after_slot (remove_client_from_server w c) p (w.client_at c).socket_fd
        (Buffered-remove_client w c v))
]

Buffered-die : (w : World) (c : ℕ) → Buffered w → Buffered (game_player_die w c).1
unfolding game_player_die
Buffered-die w c v = elim (Option-cases (w.client_at c).player) [
  | inl no_player ↦ rw (no_player, game_player_die) v
  | inr (p, mine) ↦ rw (mine, game_player_die) (Buffered-player_die w c p v)
]

Buffered-serve_player : (w : World) (c p : ℕ) → Buffered w → Buffered (serve_player w c p)
unfolding serve_player
Buffered-serve_player w c p v = elim (Bool-cases (player_is_alive w p)) [
  | inr dead ↦ rw dead (Buffered-die w c v)
  | inl alive ↦ elim (Bool-cases (is_due w.time.current_time_units (w.client_at c).event_buffer)) [
    | inl due ↦ rw (alive, due) ((Steady-client_event c w.time w).buffers v)
    | inr early ↦ rw (alive, early) v
  ]
]

Buffered-serve_slot : (w : World) (slot : Option ℕ) → Buffered w → Buffered (serve_slot w slot)
unfolding serve_client
Buffered-serve_slot w none v = v
Buffered-serve_slot w (some c) v = elim (Option-cases (w.client_at c).player) [
  | inl no_player ↦ rw (no_player, serve_client) v
  | inr (p, mine) ↦ rw (mine, serve_client) (Buffered-serve_player w c p v)
]

Buffered-play_loop : (w : World) (n i : ℕ) → Buffered w → Buffered (play_loop w n i)
unfolding play_loop
Buffered-play_loop w zero i v = v
Buffered-play_loop w (suc n) i v =
    Buffered-play_loop (serve_slot w (get_or w.clients i none)) n (i + 1)
      (Buffered-serve_slot w (get_or w.clients i none) v)

Buffered-play : (w : World) → Buffered w → Buffered (game_play w).1
unfolding game_play
Buffered-play w v =
    let played = play_loop w (length w.clients) 0 in
    (Steady-server_event played.time played).buffers (Buffered-play_loop w (length w.clients) 0 v)

Step-Buffered : {w w' : World} → Step w w' → Buffered w → Buffered w'
Step-Buffered (registers w fd name) v = Buffered-register w fd name v
Step-Buffered (commands w fd cmd arg) v = Buffered-execute w fd cmd arg v
Step-Buffered (disconnects w fd) v = Buffered-kill w fd v
Step-Buffered (tells w m) v = v
Step-Buffered (opens w n) v = v
Step-Buffered (closes w) v = v
Step-Buffered (allocates w) v = v
Step-Buffered (ticks w api) v = v
Step-Buffered (plays w) v = Buffered-play w v

-- Whatever the players and the network do: from a state in which every event buffer is valid, the
-- game comes only to states in which every event buffer, of each client and of the server, is
-- valid: ten slots, at most ten events, the head in the array and the tail behind the events.
pub Steps-Buffered : {w w' : World} → Steps w w' → Buffered w → Buffered w'
Steps-Buffered stays v = v
Steps-Buffered (then_ path step) v = Step-Buffered step (Steps-Buffered path v)
