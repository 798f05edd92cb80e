-- ===== src/Tests/Settings.antt =====
-- The theorems on the settings and on the whole program, on a file of three lines.
use zappy.Prelude.{
  ℕ, ◌≡◌, refl, ◌==◌, Bool, true, some, List, [], ◌∷◌, ◌++◌, length, arith, codes, is_space, not,
  ◌&&◌,
}
use zappy.Game.{SpawnCtx}
use zappy.Config.{field_names, find_field}
use zappy.Config.Reading.{parse_line, assign_named, init_config_content}
use zappy.Config.Lines.{parse_line-assigns, AllKey}
use zappy.Config.Files.{Entry, file_of}
use zappy.Main.{Program}
use zappy.Main.Loop.{Outside}
use zappy.Tests.Fixtures.{world}
use zappy.Tests.Frames.{Pipe}
use zappy.Tests.Clients.{layer}
use zappy.Tests.Sockets.{one_round}

-- A number for the length of the text.
abbrev strtod : List ℕ → ℕ
strtod text = length text

-- DELAY_FORK is named twice, and there is a name that no setting has.
abbrev entries : List Entry
entries =
    record { first = b'D'; others = codes "ELAY_FORK"; val = codes "50" }
    ∷ record { first = b'L'; others = codes "OG_ERASE"; val = codes "n" }
    ∷ record { first = b'D'; others = codes "ELAY_FORK"; val = codes "60" }
    ∷ record { first = b'C'; others = codes "OLOUR"; val = [] }
    ∷ []

abbrev all_plain : List ℕ → Bool
all_plain [] = true
all_plain (c ∷ cs) = (not (is_space c) && (not (c == b'=') && not (c == 0))) && all_plain cs

plain_key : (text : List ℕ) → all_plain text ≡ true → AllKey text
plain_key [] h = tt
plain_key (c ∷ cs) h =
    ((ground (arith, h), ground (arith, h), ground (arith, h)), plain_key cs (ground (arith, h)))

parse_line-assigns_example :
    parse_line strtod init_config_content (codes "  DELAY_AVANCE = 9 " ++ (10 ∷ []))
    ≡ assign_named strtod init_config_content
        (find_field (codes "DELAY_AVANCE") field_names)
        (codes "9")
parse_line-assigns_example =
    parse_line-assigns strtod init_config_content (codes "  ") (codes " ") (codes " ")
      (32 ∷ 10 ∷ []) (codes "9") b'D' (codes "ELAY_AVANCE") (refl, (refl, tt)) (refl, tt) (refl, tt)
      (refl, (refl, tt)) (plain_key (codes "DELAY_AVANCE") refl) (ground arith) ((refl, refl), tt)

abbrev program : Program Pipe
program = record { server = one_round; layer = layer }

abbrev ctx : SpawnCtx
ctx = world.ctx

-- One round in which every socket has a message.
abbrev outside : Outside ℕ
outside = record {
  file = some (file_of entries);
  argv = codes "8674" ∷ [];
  context = true;
  certified = true;
  sock = some 3;
  bound = true;
  listens = true;
  clock_start = 0;
  clock_memory = true;
  rounds =
      record {
        clock_before = 1;
        clock_between = 2;
        clock_after = 3;
        greeted = 7 ∷ [];
        ready = some (some (λ fd. true));
        received = λ fd. some 4;
      }
      ∷ [];
}
