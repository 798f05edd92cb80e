-- ===== src/Config/LastWins.antt =====
-- The value of a setting that a file names several times, or never.
use zappy.Prelude.{ℕ, ◌==◌, Bool, true, false, Option, none, some, List, [], ◌∷◌}
use zappy.Config.{
  Field, IntField, DoubleField, BoolField, int_field, double_field, bool_field, log_file_path,
  Config, field_names, find_field, int_index, double_index, bool_index,
}
use zappy.Config.Files.{Entry, name_of}

-- Whether a name is the one of a field.
abbrev pub names_int : IntField → Option Field → Bool
names_int f (some (int_field g)) = int_index g == int_index f
names_int f _ = false

abbrev pub names_double : DoubleField → Option Field → Bool
names_double f (some (double_field g)) = double_index g == double_index f
names_double f _ = false

abbrev pub names_bool : BoolField → Option Field → Bool
names_bool f (some (bool_field g)) = bool_index g == bool_index f
names_bool f _ = false

abbrev pub names_path : Option Field → Bool
names_path (some log_file_path) = true
names_path _ = false

-- The later value, if there is one.
abbrev pub later : Bool → List ℕ → Option (List ℕ) → Option (List ℕ)
later here val (some v) = some v
later true val none = some val
later false val none = none

-- The value of the last entry whose name passes a test.
abbrev pub last_value : (Option Field → Bool) → List Entry → Option (List ℕ)
last_value named [] = none
last_value named (e ∷ es) =
    later (named (find_field (name_of e) field_names)) e.val (last_value named es)

-- A value that is read, or the one from before.
abbrev pub read_or {ℓ} : {A : Type ℓ} → (List ℕ → A) → A → Option (List ℕ) → A
read_or read old none = old
read_or read old (some v) = read v
