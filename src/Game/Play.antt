-- ===== src/Game/Play.antt =====
-- `game_play`: a turn of the game.
use zappy.Prelude.{
  ℕ, zero, suc, ◌+◌, ltb, if◌then◌else◌, Bool, true, Option, none, some, Status, success, length,
  get_or,
}
use zappy.Time.{process_client_events, is_due}
use zappy.Game.{World}
use zappy.Game.Dispatch.{client_buffer, server_buffer}
use zappy.Game.Life.{game_player_die}

-- PLAYER_IS_ALIVE
abbrev pub player_is_alive : World → ℕ → Bool
player_is_alive w p = ltb w.time.current_time_units (w.player_at p).die_time

-- The body of the loop for a client; CLIENT_HAS_ACTIONS is `is_due`.
unfoldable pub serve_player : World → ℕ → ℕ → World
serve_player w c p =
    if player_is_alive w p
    then if is_due w.time.current_time_units (w.client_at c).event_buffer
      then (process_client_events (client_buffer c) (some w.time) w).1
      else w
    else (game_player_die w c).1

unfoldable pub serve_client : World → ℕ → World
unfolding serve_player
serve_client w c = elim (w.client_at c).player [
  | none ↦ record w { hung = true }
  | some p ↦ serve_player w c p
]

abbrev pub serve_slot : World → Option ℕ → World
serve_slot w none = w
serve_slot w (some c) = serve_client w c

-- `while (i < m_server.client_count)` with `n` rounds left. A slot is read when its turn comes.
unfoldable pub play_loop : World → ℕ → ℕ → World
play_loop w zero i = w
play_loop w (suc n) i = play_loop (serve_slot w (get_or w.clients i none)) n (i + 1)

-- Both returns of the function are 0.
unfoldable pub game_play : World → Status × World
unfolding play_loop serve_client
game_play w =
    let played = play_loop w (length w.clients) 0 in
    (success, (process_client_events server_buffer (some played.time) played).1)
