-- ===== src/Game/Life/Queue.antt =====
-- `game_execute_command` on the queue of a client's commands.
use zappy.Prelude.{
  ℕ, ◌<◌, ◌≡◌, refl, ◌⊎◌, inl, inr, Option, some, String, [], ◌∷◌, ◌++◌, success, length, ==_self,
}
use zappy.Time.{max_events}
use zappy.Time.Valid.{IsValid}
use zappy.Time.Deque.{contents, appended, schedule-appends}
use zappy.Game.{World, Command, on_command, get_client_from_fd}
use zappy.Game.Life.{find_command, command_messages, game_execute_command}

-- A known command of a client whose buffer is valid: the call always returns SUCCESS. If fewer
-- than ten events wait, the command waits behind them afterwards; if ten wait, the command is
-- dropped and the buffer is what it was.
pub execute-queues :
    (w : World) (fd c : ℕ) (cmd : String) (k : Command) (arg : Option String)
    → get_client_from_fd w fd ≡ some c
    → find_command cmd command_messages ≡ some k
    → IsValid (w.client_at c).event_buffer
    → let (status, w') = game_execute_command w fd cmd arg in
      let b = (w.client_at c).event_buffer in
      let b' = (w'.client_at c).event_buffer in
      (status ≡ success)
      × (((length (contents b) < max_events)
            × (contents b'
                ≡ contents b
                  ++ appended w.time b (w.delays k) (some (on_command k)) (w.client_at c).player arg
                    ∷ []))
          ⊎ ((length (contents b) ≡ max_events) × (b' ≡ b)))
unfolding game_execute_command
execute-queues w fd c cmd k arg here known v =
    let cl = w.client_at c in
    rw (here, known, game_execute_command, ==_self c)
      (
        refl,
        elim (schedule-appends w.time cl.event_buffer (w.delays k) (some (on_command k)) cl.player
            arg v) [
              | inl (room, ok, queued) ↦ inl (room, queued)
              | inr (full, failed, kept) ↦ inr (full, kept)
            ],
      )
