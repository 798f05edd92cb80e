-- ===== src/Config/Reading.antt =====
-- server/srcs/parse_arg/config_file.c: the default values, a line and the file, and what the game
-- and the log take from the settings.
use zappy.Prelude.{
  ℕ, zero, suc, ◌==◌, if◌then◌else◌, Bool, true, false, Option, none, some, List, [], ◌∷◌, codes,
  c_string, skip_spaces, Status, success, error, length,
}
use zappy.Prelude.Int.{ℤ, pos, pos_part}
use zappy.Game.{
  Command, avance, droite, gauche, voir, inventaire, prend, pose, expulse, broadcast, incantation,
  fork, connect_nbr, SpawnCtx,
}
use zappy.Game.Items.{Item, nourriture, linemate, deraumere, sibur, mendiane, phiras, thystame}
use zappy.Game.Init.{Settings}
use zappy.Config.{
  IntField, DoubleField, BoolField, Field, int_field, double_field, bool_field, log_file_path,
  initial_life_units, life_unit_to_time, spawn_time, log_level, delay, density, respawn,
  spawn_more_resources, log_erase, Config, field_names, find_field, int_index, double_index,
  bool_index, atoi, switch, trim_end, cut_at_equals,
}

abbrev default_int : IntField → ℤ
default_int initial_life_units = pos 10
default_int life_unit_to_time = pos 126
default_int spawn_time = pos 100
default_int log_level = pos 2
default_int (delay inventaire) = pos 1
default_int (delay incantation) = pos 300
default_int (delay fork) = pos 42
default_int (delay connect_nbr) = pos 0
default_int (delay avance) = pos 7
default_int (delay droite) = pos 7
default_int (delay gauche) = pos 7
default_int (delay voir) = pos 7
default_int (delay prend) = pos 7
default_int (delay pose) = pos 7
default_int (delay expulse) = pos 7
default_int (delay broadcast) = pos 7

-- The bit patterns of 0.02, 0.04, 0.005, 0.5 and 1.0.
abbrev default_small : Item → ℕ
default_small linemate = 4581421828931458171
default_small deraumere = 4581421828931458171
default_small sibur = 4585925428558828667
default_small mendiane = 4585925428558828667
default_small phiras = 4585925428558828667
default_small thystame = 4572414629676717179
default_small nourriture = 4602678819172646912

abbrev default_double : DoubleField → ℕ
default_double (density nourriture) = 4607182418800017408
default_double (density i) = default_small i
default_double (respawn i) = default_small i

-- `m_init_config_content`
abbrev pub init_config_content : Config
init_config_content = record {
  int_of = λ f. default_int f;
  double_of = λ f. default_double f;
  bool_of = λ f. true;
  path = codes "log.txt";
}

abbrev pub set_int : Config → IntField → ℤ → Config
set_int c f v = record c { int_of = λ g. if int_index f == int_index g then v else c.int_of g }

abbrev pub set_double : Config → DoubleField → ℕ → Config
set_double c f v = record c {
  double_of = λ g. if double_index f == double_index g then v else c.double_of g;
}

abbrev pub set_bool : Config → BoolField → Bool → Config
set_bool c f v = record c { bool_of = λ g. if bool_index f == bool_index g then v else c.bool_of g }

abbrev pub put_in_front : ℕ → List ℕ × List ℕ → List ℕ × List ℕ
put_in_front c (line, rest) = (c ∷ line, rest)

-- `fgets` with room for n characters: it stops behind the end of a line.
unfoldable pub fgets : ℕ → List ℕ → List ℕ × List ℕ
fgets zero file = ([], file)
fgets (suc n) [] = ([], [])
fgets (suc n) (c ∷ cs) = if c == 10 then (c ∷ [], cs) else put_in_front c (fgets n cs)

module _ (strtod : List ℕ → ℕ) where
  unfoldable pub assign : Config → Field → List ℕ → Config
  assign c (int_field f) val = set_int c f (atoi val)
  assign c (double_field f) val = set_double c f (strtod val)
  assign c (bool_field f) val = set_bool c f (switch val)
  assign c log_file_path val = record c { path = val }

  -- A key that no test knows changes nothing.
  unfoldable pub assign_named : Config → Option Field → List ℕ → Config
  unfolding assign
  assign_named c none val = c
  assign_named c (some f) val = assign c f val

  -- A line without '=' changes nothing.
  unfoldable pub assign_cut : Config → Option (List ℕ × List ℕ) → Config
  unfolding assign_named
  assign_cut c none = c
  assign_cut c (some (key, val)) =
      assign_named c (find_field (trim_end key) field_names) (trim_end (skip_spaces val))

  -- The line from its first character on that is no space.
  unfoldable pub parse_content : Config → List ℕ → Config
  unfolding assign_cut
  parse_content c [] = c
  parse_content c (h ∷ t) = if h == b'#' then c else assign_cut c (cut_at_equals (h ∷ t))

  unfoldable pub parse_line : Config → List ℕ → Config
  unfolding parse_content
  parse_line c line = parse_content c (skip_spaces (c_string line))

  -- Each round reads a character or more, so the length of the file is enough fuel.
  unfoldable pub parse_lines : ℕ → Config → List ℕ → Config
  unfolding parse_line fgets
  parse_lines fuel c [] = c
  parse_lines zero c (h ∷ t) = c
  parse_lines (suc fuel) c (h ∷ t) =
      let (line, rest) = fgets 255 (h ∷ t) in parse_lines fuel (parse_line c line) rest

  -- `none` is a file that cannot be opened. The memory of the settings is there.
  unfoldable pub parse_config : Option (List ℕ) → Status × Config
  unfolding parse_lines
  parse_config none = (error, init_config_content)
  parse_config (some file) = (success, parse_lines (length file) init_config_content file)

-- The functions below have `m_config_content`, which is `none` before the file is read and after
-- `parse_free_config`. The game counts with numbers that are not negative.
unfoldable pub parse_set_initial_density : Option Config → SpawnCtx → SpawnCtx
parse_set_initial_density none ctx = ctx
parse_set_initial_density (some c) ctx = record ctx {
  d_nourriture = c.double_of (density nourriture);
  d_linemate = c.double_of (density linemate);
  d_deraumere = c.double_of (density deraumere);
  d_sibur = c.double_of (density sibur);
  d_mendiane = c.double_of (density mendiane);
  d_phiras = c.double_of (density phiras);
  d_thystame = c.double_of (density thystame);
}

unfoldable pub parse_set_commands_delay : Option Config → (Command → ℕ) → Command → ℕ
parse_set_commands_delay none delays cmd = delays cmd
parse_set_commands_delay (some c) delays cmd = pos_part (c.int_of (delay cmd))

unfoldable pub parse_set_respawn_context : Option Config → SpawnCtx → SpawnCtx
parse_set_respawn_context none ctx = ctx
parse_set_respawn_context (some c) ctx = record ctx {
  period = pos_part (c.int_of spawn_time);
  d_nourriture = c.double_of (respawn nourriture);
  d_linemate = c.double_of (respawn linemate);
  d_deraumere = c.double_of (respawn deraumere);
  d_sibur = c.double_of (respawn sibur);
  d_mendiane = c.double_of (respawn mendiane);
  d_phiras = c.double_of (respawn phiras);
  d_thystame = c.double_of (respawn thystame);
}

unfoldable pub parse_respawn_resources : Option Config → Bool
parse_respawn_resources none = false
parse_respawn_resources (some c) = c.bool_of spawn_more_resources

unfoldable pub parse_set_life_unit : Option Config → ℕ → ℕ
parse_set_life_unit none life_unit = life_unit
parse_set_life_unit (some c) life_unit = pos_part (c.int_of life_unit_to_time)

unfoldable pub parse_set_start_life_units : Option Config → ℕ → ℕ
parse_set_start_life_units none start_life_units = start_life_units
parse_set_start_life_units (some c) start_life_units = pos_part (c.int_of initial_life_units)

-- `log_config`
pub record LogConfig : Type 0 where
  pub level : ℤ
  pub file : List ℕ
  pub erase : Bool

-- There is no test of `m_config_content`: `none` where it is a null pointer.
unfoldable pub parse_set_log_config : Option Config → Option LogConfig
parse_set_log_config none = none
parse_set_log_config (some c) =
    some (record { level = c.int_of log_level; file = c.path; erase = c.bool_of log_erase })

-- What `game_init` takes.
unfoldable pub game_settings : Option Config → SpawnCtx → Settings
unfolding parse_set_initial_density parse_set_commands_delay parse_set_respawn_context
    parse_respawn_resources parse_set_life_unit parse_set_start_life_units
game_settings config ctx = record {
  life_unit = parse_set_life_unit config 0;
  start_life_units = parse_set_start_life_units config 0;
  initial_density = parse_set_initial_density config ctx;
  delays = parse_set_commands_delay config (λ cmd. 0);
  respawn_context = parse_set_respawn_context config ctx;
  respawn_resources = parse_respawn_resources config;
}
