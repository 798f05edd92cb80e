-- ===== src/Game/Dispatch.antt =====
-- The functions that events call: `command_prototypes` and the callbacks of game.c by name.
use zappy.Prelude.{ℕ, Option, none, some, String, Status}
use zappy.Time.{Owner}
use zappy.Game.{
  World, Command, Callback, avance, droite, gauche, voir, inventaire, prend, pose, expulse,
  broadcast, incantation, fork, connect_nbr, on_command, real_incantation, send_map_observer,
  spawn_resources, write_client,
}
use zappy.Game.Items.{command_prend, command_pose, command_inventaire}
use zappy.Game.Moves.{
  command_avance, command_droite, command_gauche, command_fork, command_connect_nbr,
}
use zappy.Game.Vision.{command_voir}
use zappy.Game.Expulse.{command_expulse}
use zappy.Game.Broadcast.{command_broadcast}
use zappy.Game.Incantation.{command_incantation, command_real_incantation}
use zappy.Game.Spawn.{game_spawn_resources}

-- `command_prototypes[command].prototype`
unfoldable pub prototype : Command → World → ℕ → Option String → Status × World
prototype avance w p arg = command_avance w p arg
prototype droite w p arg = command_droite w p arg
prototype gauche w p arg = command_gauche w p arg
prototype voir w p arg = command_voir w p
prototype inventaire w p arg = command_inventaire w p
prototype prend w p arg = command_prend w p arg
prototype pose w p arg = command_pose w p arg
prototype expulse w p arg = command_expulse w p
prototype broadcast w p arg = command_broadcast w p arg
prototype incantation w p arg = command_incantation w p
prototype fork w p arg = command_fork w p
prototype connect_nbr w p arg = command_connect_nbr w p

-- `ev->callback(ev->data, ev->arg)`, whose result is not looked at. Commands are scheduled with
-- the pointer to a player; `m_send_map_observer` changes no state of the game.
unfoldable pub run_event : Callback → Option ℕ → Option String → World → World
unfolding prototype
run_event (on_command c) none arg w = w
run_event (on_command c) (some p) arg w = (prototype c w p arg).1
run_event real_incantation none arg w = w
run_event real_incantation (some p) arg w = (command_real_incantation w p arg).1
run_event send_map_observer payload arg w = w
run_event spawn_resources payload arg w = (game_spawn_resources w payload arg).1

-- The buffer of the client at an address, and the buffer of the server.
abbrev pub client_buffer : ℕ → Owner Callback World
client_buffer c = record {
  buffer = λ w. (w.client_at c).event_buffer;
  put = λ w b. write_client w c (record (w.client_at c) { event_buffer = b });
  call = run_event;
}

abbrev pub server_buffer : Owner Callback World
server_buffer = record {
  buffer = λ w. w.event_buffer;
  put = λ w b. record w { event_buffer = b };
  call = run_event;
}
