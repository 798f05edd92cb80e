-- ===== src/Main.antt =====
-- server/srcs/main.c and server/srcs/parse_arg/parse_arg.c: the program from its start to its end,
-- with `init_server` and `cleanup_server` of server/srcs/server/server.c.
pub mod Loop
pub mod Rounds
pub mod Cleanup
use zappy.Prelude.{
  ℕ, zero, suc, ◌+◌, ◌/◌, ◌==◌, ltb, if◌then◌else◌, Bool, true, false, ◌&&◌, ◌||◌, not, Option,
  none, some, List, [], ◌∷◌, String, Status, success, error, take,
}
use zappy.Prelude.Int.{ℤ, pos, ltb_ℤ}
use zappy.Time.{TimeApi, time_api_init, time_api_update}
use zappy.Game.{World, SpawnCtx}
use zappy.Game.Play.{game_play}
use zappy.Game.Init.{game_init}
use zappy.Server.{Json, Server, server_select, cb_on_accept_success, remove_client}
use zappy.Config.{Config, atoi}
use zappy.Config.Reading.{parse_config, game_settings}
use zappy.Connections.{Layer, init_ssl_al, set_server_socket, cleanup_ssl_al}
use zappy.SslTable.{ssl_table_free}

-- `t_args` without the names of the two files for TLS. The list of teams ends before its NULL.
pub record Args : Type 0 where
  pub port : ℤ
  pub width : ℕ
  pub height : ℕ
  pub teams : List String
  pub nb_teams : ℕ
  pub nb_clients : ℕ
  pub time_unit : ℕ

-- PORT
abbrev pub default_port : ℤ
default_port = pos 8674

abbrev pub all_teams : List String
all_teams =
    "team1" ∷ "team2" ∷ "team3" ∷ "team4" ∷ "team5" ∷ "team6" ∷ "team7" ∷ "team8" ∷ "team9"
    ∷ "team10" ∷ "team11" ∷ "team12" ∷ "team13" ∷ "team14" ∷ "team15" ∷ []

-- `args` as `main` has set it before it looks at its arguments.
abbrev pub initial_args : Args
initial_args = record {
  port = default_port;
  width = 10;
  height = 10;
  teams = all_teams;
  nb_teams = 2;
  nb_clients = 1000;
  time_unit = 800;
}

-- What `check_params` ends the program with.
pub data Complaint : Type 0 where
  low_port high_port small_world few_clients no_time no_team : Complaint

abbrev is_empty : List String → Bool
is_empty [] = true
is_empty (t ∷ ts) = false

-- `root` tells whether the process runs as the superuser.
unfoldable pub check_params : Bool → Args → Option Complaint
check_params root a =
    if ltb_ℤ a.port (pos 1024) && not root
    then some low_port
    else if ltb_ℤ (pos 65535) a.port
    then some high_port
    else if ltb a.width 10 || ltb a.height 10
    then some small_world
    else if ltb a.nb_clients 3
    then some few_clients
    else if ltb a.time_unit 1
    then some no_time
    else if is_empty a.teams
    then some no_team
    else none

-- The function returns in its first statement: the options and the parameters are not looked at.
unfoldable pub parse_args : List (List ℕ) → Args → Status × Args
parse_args argv a = (success, a)

-- The first argument as a number; 2 stands for the default.
unfoldable pub chosen_port : Option (List ℕ) → ℤ
chosen_port none = default_port
chosen_port (some text) = elim (atoi text) [
  | pos n ↦ if n == 2 then default_port else pos n
  | z ↦ z
]

-- The server and the TLS layer below it.
pub record Program (W : Type 0) : Type 0 where
  pub server : Server
  pub layer : Layer W

-- `for (fd = 0; fd <= m_max_fd; ++fd)` with n rounds left.
unfoldable pub remove_all : Server → ℕ → ℕ → Server
remove_all s zero fd = s
remove_all s (suc n) fd =
    let s' = if s.read_fds fd then remove_client s fd else s in remove_all s' n (fd + 1)

module _ {W : Type 0} where
  -- From the result of `init_ssl_al` on; the set of sockets is emptied first.
  started : Server → Option ℕ × Layer W → Status × Program W
  started s (none, l) = (error, record { server = s; layer = l })
  started s (some fd, l) = (
    success,
    record {
      server = record s {
        sock_server = fd;
        read_fds = λ q. fd == q;
        game = record s.game { max_fd = fd };
      };
      layer = set_server_socket l (some fd);
    },
  )

  -- The arguments after the program are what OpenSSL and the system answer, as for `init_ssl_al`.
  unfoldable pub init_server : Program W → Bool → Bool → Option ℕ → Bool → Bool → Status × Program W
  unfolding started
  init_server p context certified sock bound listens =
      started p.server (init_ssl_al p.layer context certified sock bound listens)

  unfoldable pub cleanup_server : Program W → Program W
  unfolding remove_all
  cleanup_server p =
      let l = (cleanup_ssl_al p.layer).1 in
      record {
        server = remove_all p.server (p.server.game.max_fd + 1) 0;
        layer = record l { table = ssl_table_free l.table };
      }
