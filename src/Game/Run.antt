-- ===== src/Game/Run.antt =====
-- The game as a transition system: the calls of the server and the turns of the game, in any
-- order, from `game_init` on.
pub mod Safe
pub mod Buffers
pub mod Queued
use zappy.Prelude.{ℕ, zero, suc, ◌+◌, ◌<◌, ◌≡◌, Option, String, List, [], length}
use zappy.Time.{TimeApi}
use zappy.Game.{World, Message, send}
use zappy.Game.Life.{game_register_player, game_execute_command, game_kill_player}
use zappy.Game.Play.{game_play}
use zappy.Game.Init.{Settings, game_init}

-- A step: a player registers, a client sends a command, a connection ends, the server sends a
-- message of its own, opens a socket or closes the leaving ones, memory is allocated, the clock
-- advances, and a turn of the game is played.
pub data Step : World → World → Type 0 where
  registers : (w : World) (fd : ℕ) (name : String) → Step w (game_register_player w fd name).1
  commands :
      (w : World) (fd : ℕ) (cmd : String) (arg : Option String)
      → Step w (game_execute_command w fd cmd arg).1
  disconnects : (w : World) (fd : ℕ) → Step w (game_kill_player w fd).1
  tells : (w : World) (m : Message) → Step w (send w m)
  opens : (w : World) (fd : ℕ) → Step w (record w { max_fd = fd })
  closes : (w : World) → Step w (record w { leaving = [] })
  allocates : (w : World) → Step w (record w { next_ptr = w.next_ptr + 1 })
  ticks : (w : World) (api : TimeApi) → Step w (record w { time = api })
  plays : (w : World) → Step w (game_play w).1

-- The states that a game with as many teams as it is told can come to.
pub data Reachable : World → Type 0 where
  starts :
      (w : World) (s : Settings) (width height nb_clients : ℕ) (teams : List String)
      → Reachable (game_init w s width height teams nb_clients (length teams)).1
  goes_on : {w w' : World} → Reachable w → Step w w' → Reachable w'

pub data Steps : World → World → Type 0 where
  stays : {w : World} → Steps w w
  then_ : {u v w : World} → Steps u v → Step v w → Steps u w
