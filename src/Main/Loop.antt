-- ===== src/Main/Loop.antt =====
-- server/srcs/main.c: `main_loop`, and `main` from its start to the end of the loop.
use zappy.Prelude.{
  ℕ, ltb, if◌then◌else◌, Bool, true, false, Option, none, some, List, [], ◌∷◌, Status, success,
  error, take,
}
use zappy.Time.{TimeApi, time_api_init, time_api_update}
use zappy.Game.{World, SpawnCtx}
use zappy.Game.Play.{game_play}
use zappy.Game.Init.{game_init}
use zappy.Server.{Json, Server, server_select, cb_on_accept_success}
use zappy.Config.{Config}
use zappy.Config.Reading.{parse_config, game_settings}
use zappy.Main.{Args, Program, initial_args, chosen_port, parse_args, init_server}

-- What the world outside does while the loop goes round once: the clock at its three readings, the
-- sockets that `ssl_al_lookup_new_clients` reports, the result of `select` and what arrives.
pub record Round (B : Type 0) : Type 0 where
  pub clock_before : ℕ
  pub clock_between : ℕ
  pub clock_after : ℕ
  pub greeted : List ℕ
  pub ready : Option (Option (ℕ → Bool))
  pub received : ℕ → Option B

abbrev pub clock_or : TimeApi → Option TimeApi → TimeApi
clock_or old none = old
clock_or old (some api) = api

-- `time_api_update(NULL)`
unfoldable pub tick : World → ℕ → World
tick w clock = record w { time = clock_or w.time (time_api_update (some w.time) clock).1 }

abbrev pub with_game : Server → World → Server
with_game s w = record s { game = w }

unfoldable pub stop_or_go : (Server → Server) → Status × Server → Server
stop_or_go again (error, s) = s
stop_or_go again (success, s) = again s

module _ {B J : Type 0} (json : Json B J) where
  unfoldable pub greet_each : Server → List ℕ → Server
  greet_each s [] = s
  greet_each s (fd ∷ fds) = greet_each (cb_on_accept_success json s fd).1 fds

  -- The part of a round after `server_select`.
  unfoldable pub after_select : Round B → Status × Server → Status × Server
  unfolding tick
  after_select r (error, s) = (error, s)
  after_select r (success, s) =
      let (status, w) = game_play (tick s.game r.clock_between) in
      (status, with_game s (tick w r.clock_after))

  -- A round of the loop of `main_loop`. The units of time that it takes are only logged.
  unfoldable pub loop_round : Server → Round B → Status × Server
  unfolding after_select greet_each
  loop_round s r =
      let s1 = greet_each (with_game s (tick s.game r.clock_before)) r.greeted in
      after_select r (server_select json r.received s1 r.ready)

  -- The rounds until the signal to die comes; an error ends the loop before.
  unfoldable pub main_loop : List (Round B) → Server → Server
  unfolding stop_or_go loop_round
  main_loop [] s = s
  main_loop (r ∷ rs) s = stop_or_go (λ s'. main_loop rs s') (loop_round s r)

-- What `main` is given: the file of settings, its arguments, the answers of OpenSSL and of the
-- system to `init_ssl_al`, the clock, whether the memory of the clock is there, and the rounds.
pub record Outside (B : Type 0) : Type 0 where
  pub file : Option (List ℕ)
  pub argv : List (List ℕ)
  pub context : Bool
  pub certified : Bool
  pub sock : Option ℕ
  pub bound : Bool
  pub listens : Bool
  pub clock_start : ℕ
  pub clock_memory : Bool
  pub rounds : List (Round B)

-- How `main` ends: with the label `error`, with ERROR, with its usage, or after the loop.
pub data Ending : Type 0 where
  failed refused_teams usage : Ending
  played : Server → Ending

abbrev pub first_arg : List (List ℕ) → Option (List ℕ)
first_arg [] = none
first_arg (a ∷ rest) = some a

abbrev pub any_arg : List (List ℕ) → Bool
any_arg [] = false
any_arg (a ∷ rest) = true

module _ {B J : Type 0} (json : Json B J) (out : Outside B) (ctx : SpawnCtx) where
  -- From `game_init` on, with the clock that `time_api_init_local` has made.
  unfoldable pub start_game : Config → Args → Server → Server
  start_game c a s =
      let w = record s.game { time = time_api_init a.time_unit out.clock_start } in
      let teams = take a.nb_teams a.teams in
      let (status, w') =
        game_init w (game_settings (some c) ctx) a.width a.height teams a.nb_clients a.nb_teams in
      main_loop json out.rounds (with_game s w')

module _ {B J W : Type 0} (json : Json B J) (strtod : List ℕ → ℕ) (out : Outside B)
    (ctx : SpawnCtx) where
  -- From `time_api_init_local` on.
  unfoldable pub after_server : Config → Args → Status × Program W → Ending
  unfolding start_game
  after_server c a (error, p) = failed
  after_server c a (success, p) =
      if out.clock_memory then played (start_game json out ctx c a p.server) else failed

  -- From the result of `parse_args` on.
  unfoldable pub after_args : Config → Program W → Status × Args → Ending
  unfolding after_server init_server
  after_args c p (error, a) = failed
  after_args c p (success, a) =
      after_server c a (init_server p out.context out.certified out.sock out.bound out.listens)

  -- From the test of the number of teams on.
  unfoldable pub after_config : Args → Program W → Status × Config → Ending
  unfolding after_args parse_args
  after_config a p (error, c) = failed
  after_config a p (success, c) =
      if ltb a.nb_clients a.nb_teams
      then refused_teams
      else if any_arg out.argv
      then after_args c p (parse_args out.argv a)
      else usage

  unfoldable pub main : Program W → Ending
  unfolding after_config chosen_port
  main p =
      let a = record initial_args { port = chosen_port (first_arg out.argv) } in
      after_config a p (parse_config strtod out.file)
