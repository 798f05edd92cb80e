-- ===== src/Config.antt =====
-- server/srcs/parse_arg/config_file.c: the file of settings and what the game and the log take
-- from it. A text is a list of bytes; a `double` is its bit pattern, which `strtod` gives.
pub mod Reading
pub mod Lines
pub mod Files
pub mod LastWins
use zappy.Prelude.{
  ℕ, zero, suc, ◌+◌, ◌-◌, ◌*◌, ◌==◌, leb, if◌then◌else◌, Bool, true, false, ◌&&◌, ◌||◌, Option,
  none, some, List, [], ◌∷◌, ◌++◌, codes, c_string, is_space, skip_spaces, Status, success, error,
  String, length,
}
use zappy.Prelude.Int.{ℤ, pos, neg_ℤ}
use zappy.Game.{
  Command, avance, droite, gauche, voir, inventaire, prend, pose, expulse, broadcast, incantation,
  fork, connect_nbr, SpawnCtx,
}
use zappy.Game.Items.{Item, nourriture, linemate, deraumere, sibur, mendiane, phiras, thystame}

-- The fields of `config_t`, by type: `delay c` is the field DELAY_..., `density i` DENSITY_... and
-- `respawn i` SPAWN_MORE_RESOURCES_...
pub data IntField : Type 0 where
  initial_life_units life_unit_to_time spawn_time log_level : IntField
  delay : Command → IntField

pub data DoubleField : Type 0 where
  density respawn : Item → DoubleField

pub data BoolField : Type 0 where
  spawn_more_resources log_erase : BoolField

pub data Field : Type 0 where
  int_field : IntField → Field
  double_field : DoubleField → Field
  bool_field : BoolField → Field
  log_file_path : Field

-- `config_t`
pub record Config : Type 0 where
  pub int_of : IntField → ℤ
  pub double_of : DoubleField → ℕ
  pub bool_of : BoolField → Bool
  pub path : List ℕ

-- The names that the lines are compared with, in the order of the tests.
abbrev pub field_names : List (List ℕ × Field)
field_names =
    (codes "INITIAL_LIFE_UNITS", int_field initial_life_units)
    ∷ (codes "LIFE_UNIT_TO_TIME", int_field life_unit_to_time)
    ∷ (codes "DENSITY_NOURRITURE", double_field (density nourriture))
    ∷ (codes "DENSITY_LINEMATE", double_field (density linemate))
    ∷ (codes "DENSITY_DERAUMERE", double_field (density deraumere))
    ∷ (codes "DENSITY_SIBUR", double_field (density sibur))
    ∷ (codes "DENSITY_MENDIANE", double_field (density mendiane))
    ∷ (codes "DENSITY_PHIRAS", double_field (density phiras))
    ∷ (codes "DENSITY_THYSTAME", double_field (density thystame))
    ∷ (codes "DELAY_AVANCE", int_field (delay avance))
    ∷ (codes "DELAY_DROITE", int_field (delay droite))
    ∷ (codes "DELAY_GAUCHE", int_field (delay gauche))
    ∷ (codes "DELAY_VOIR", int_field (delay voir))
    ∷ (codes "DELAY_INVENTAIRE", int_field (delay inventaire))
    ∷ (codes "DELAY_PREND", int_field (delay prend))
    ∷ (codes "DELAY_POSE", int_field (delay pose))
    ∷ (codes "DELAY_EXPULSE", int_field (delay expulse))
    ∷ (codes "DELAY_BROADCAST", int_field (delay broadcast))
    ∷ (codes "DELAY_INCANTATION", int_field (delay incantation))
    ∷ (codes "DELAY_FORK", int_field (delay fork))
    ∷ (codes "DELAY_CONNECT_NBR", int_field (delay connect_nbr))
    ∷ (codes "SPAWN_MORE_RESOURCES", bool_field spawn_more_resources)
    ∷ (codes "SPAWN_MORE_RESOURCES_TIME", int_field spawn_time)
    ∷ (codes "SPAWN_MORE_RESOURCES_NOURRITURE", double_field (respawn nourriture))
    ∷ (codes "SPAWN_MORE_RESOURCES_LINEMATE", double_field (respawn linemate))
    ∷ (codes "SPAWN_MORE_RESOURCES_DERAUMERE", double_field (respawn deraumere))
    ∷ (codes "SPAWN_MORE_RESOURCES_SIBUR", double_field (respawn sibur))
    ∷ (codes "SPAWN_MORE_RESOURCES_MENDIANE", double_field (respawn mendiane))
    ∷ (codes "SPAWN_MORE_RESOURCES_PHIRAS", double_field (respawn phiras))
    ∷ (codes "SPAWN_MORE_RESOURCES_THYSTAME", double_field (respawn thystame))
    ∷ (codes "LOG_LEVEL", int_field log_level)
    ∷ (codes "LOG_FILE_PATH", log_file_path)
    ∷ (codes "LOG_ERASE", bool_field log_erase)
    ∷ []

-- `strcmp` gives 0.
unfoldable pub same : List ℕ → List ℕ → Bool
same [] [] = true
same [] (d ∷ ds) = false
same (c ∷ cs) [] = false
same (c ∷ cs) (d ∷ ds) = (c == d) && same cs ds

-- The tests on the key, one after another.
unfoldable pub find_field : List ℕ → List (List ℕ × Field) → Option Field
unfolding same
find_field key [] = none
find_field key ((name, field) ∷ rest) = if same key name then some field else find_field key rest

-- Which of two fields of a type is written: the same test for every field of `config_t`.
abbrev pub int_index : IntField → ℕ
int_index initial_life_units = 0
int_index life_unit_to_time = 1
int_index spawn_time = 2
int_index log_level = 3
int_index (delay avance) = 4
int_index (delay droite) = 5
int_index (delay gauche) = 6
int_index (delay voir) = 7
int_index (delay inventaire) = 8
int_index (delay prend) = 9
int_index (delay pose) = 10
int_index (delay expulse) = 11
int_index (delay broadcast) = 12
int_index (delay incantation) = 13
int_index (delay fork) = 14
int_index (delay connect_nbr) = 15

abbrev item_index : Item → ℕ
item_index nourriture = 0
item_index linemate = 1
item_index deraumere = 2
item_index sibur = 3
item_index mendiane = 4
item_index phiras = 5
item_index thystame = 6

abbrev pub double_index : DoubleField → ℕ
double_index (density i) = item_index i
double_index (respawn i) = 7 + item_index i

abbrev pub bool_index : BoolField → ℕ
bool_index spawn_more_resources = 0
bool_index log_erase = 1

-- `atoi`, whose result for a number that is no `int` is not defined.
digits_from : ℕ → List ℕ → ℕ
digits_from acc [] = acc
digits_from acc (c ∷ cs) =
    let next = digits_from (acc * 10 + (c - 48)) cs in if leb 48 c && leb c 57 then next else acc

signed : List ℕ → ℤ
unfolding digits_from
signed [] = pos 0
signed (c ∷ cs) =
    if c == b'-'
    then neg_ℤ (pos (digits_from 0 cs))
    else if c == b'+'
    then pos (digits_from 0 cs)
    else pos (digits_from 0 (c ∷ cs))

unfoldable pub atoi : List ℕ → ℤ
unfolding signed
atoi text = signed (skip_spaces text)

-- The value of a switch: its first character is y, Y or 1.
unfoldable pub switch : List ℕ → Bool
switch [] = false
switch (c ∷ cs) = (c == b'y') || ((c == b'Y') || (c == b'1'))

-- The loops that cut off spaces at the end; they stop at the first character.
trailing : ℕ → List ℕ → List ℕ
trailing c [] = if is_space c then [] else c ∷ []
trailing c (d ∷ ds) = c ∷ d ∷ ds

drop_spaces : List ℕ → List ℕ
unfolding trailing
drop_spaces [] = []
drop_spaces (c ∷ cs) = trailing c (drop_spaces cs)

unfoldable pub trim_end : List ℕ → List ℕ
unfolding drop_spaces
trim_end [] = []
trim_end (c ∷ cs) = c ∷ drop_spaces cs

cut_more : ℕ → Option (List ℕ × List ℕ) → Option (List ℕ × List ℕ)
cut_more c none = none
cut_more c (some (before, behind)) = some (c ∷ before, behind)

-- `strchr` for '=': what stands before and behind the first one.
unfoldable pub cut_at_equals : List ℕ → Option (List ℕ × List ℕ)
unfolding cut_more
cut_at_equals [] = none
cut_at_equals (c ∷ cs) = if c == b'=' then some ([], cs) else cut_more c (cut_at_equals cs)
