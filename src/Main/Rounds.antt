-- ===== src/Main/Rounds.antt =====
-- The rounds of the main loop as steps of the game.
use zappy.Prelude.{ℕ, ◌≡◌, ltb, if◌then◌else◌, true, List, [], ◌∷◌, Status, success, error}
use zappy.Game.{World}
use zappy.Game.Run.{Steps, stays, then_, opens, ticks, plays}
use zappy.Game.Life.Seated.{Seated}
use zappy.Server.{Json, Server, server_select, cb_on_accept_success}
use zappy.Server.Moves.{server_select-Steps, Steps-trans, Steps-response}
use zappy.Config.{Config}
use zappy.Config.Reading.{parse_config}
use zappy.Main.{Program, init_server}
use zappy.Main.Loop.{
  Round, Outside, Ending, failed, refused_teams, usage, played, tick, with_game, greet_each,
  after_select, loop_round, stop_or_go, main_loop, any_arg,
}

module _ {B J : Type 0} (json : Json B J) where
  Steps-tick : (w : World) (clock : ℕ) → Steps w (tick w clock)
  unfolding tick
  Steps-tick w clock = then_ stays (ticks w _)

  Steps-accept : (s : Server) (fd : ℕ) → Steps s.game (cb_on_accept_success json s fd).1.game
  unfolding cb_on_accept_success
  Steps-accept s fd =
      Steps-trans (then_ stays (opens s.game (if ltb s.game.max_fd fd then fd else s.game.max_fd)))
        (Steps-response json _ fd "bienvenue" "Whoa! Knock knock, whos there?")

  Steps-greet_each : (s : Server) (fds : List ℕ) → Steps s.game (greet_each json s fds).game
  unfolding greet_each
  Steps-greet_each s [] = stays
  Steps-greet_each s (fd ∷ fds) =
      Steps-trans (Steps-accept s fd) (Steps-greet_each (cb_on_accept_success json s fd).1 fds)

  Steps-after_select :
      (r : Round B) (q : Status × Server) → Steps q.1.game (after_select json r q).1.game
  unfolding after_select
  Steps-after_select r (error, s) = stays
  Steps-after_select r (success, s) =
      Steps-trans (then_ (Steps-tick s.game r.clock_between) (plays _)) (Steps-tick _ r.clock_after)

  Steps-loop_round : (s : Server) (r : Round B) → Steps s.game (loop_round json s r).1.game
  unfolding loop_round
  Steps-loop_round s r =
      let s0 = with_game s (tick s.game r.clock_before) in
      let s1 = greet_each json s0 r.greeted in
      Steps-trans
        (Steps-trans
          (Steps-trans (Steps-tick s.game r.clock_before) (Steps-greet_each s0 r.greeted))
          (server_select-Steps json r.received s1 r.ready))
        (Steps-after_select r (server_select json r.received s1 r.ready))

  Steps-stop_or_go :
      (again : Server → Server) (q : Status × Server)
      → ((s : Server) → Steps s.game (again s).game)
      → Steps q.1.game (stop_or_go again q).game
  unfolding stop_or_go
  Steps-stop_or_go again (error, s) h = stays
  Steps-stop_or_go again (success, s) h = h s

  -- Whatever the clock says, whatever `select` returns and whatever arrives in each round, what
  -- `main_loop` does to the game is a sequence of steps of the game.
  pub main_loop-Steps :
      (rounds : List (Round B)) (s : Server) → Steps s.game (main_loop json rounds s).game
  unfolding main_loop
  main_loop-Steps [] s = stays
  main_loop-Steps (r ∷ rs) s =
      Steps-trans (Steps-loop_round s r)
        (Steps-stop_or_go (λ s'. main_loop json rs s') (loop_round json s r) (main_loop-Steps rs))

-- What `main` needs to get to its loop.
pub record CanPlay {B W : Type 0} (strtod : List ℕ → ℕ) (out : Outside B) (p : Program W)
    : Type 0 where
  pub config : (parse_config strtod out.file).0 ≡ success
  pub argument : any_arg out.argv ≡ true
  pub server : (init_server p out.context out.certified out.sock out.bound out.listens).0 ≡ success
  pub clock : out.clock_memory ≡ true

module _ {B W : Type 0} (strtod : List ℕ → ℕ) (out : Outside B) where
  -- What holds of the ways in which `main` ends.
  abbrev pub Ends : Program W → Ending → Type 0
  Ends p (played s) = CanPlay strtod out p × Seated s.game
  Ends p failed = ¬ CanPlay strtod out p
  Ends p refused_teams = ⊥
  Ends p usage = ¬ CanPlay strtod out p
