-- ===== src/Prelude/Text.antt =====
-- The bytes of a text, and what C does with a string: bytes that end before a NUL.
use Prim.Native.Char.{code}
use Prim.Native.Nat.{ℕ}
use Prim.Native.String.{String}
use mathlib.Core.Bool.{Bool, true, false, ◌&&◌, ◌||◌}
use mathlib.Core.List.{List, [], ◌∷◌, ◌++◌}
use mathlib.Core.Path.{◌≡◌, refl, ap, ◌∙◌}
use zappy.Prelude.Tests.{leb, ◌==◌, if◌then◌else◌}

-- `String` has its own `[]` and `∷`.
abbrev pub codes : String → List ℕ
codes String.[] = []
codes (String.◌∷◌ c s) = code c ∷ codes s

-- The characters before the NUL that ends a string.
unfoldable pub c_string : List ℕ → List ℕ
c_string [] = []
c_string (c ∷ cs) = if c == 0 then [] else c ∷ c_string cs

-- `isspace`
abbrev pub is_space : ℕ → Bool
is_space c = (c == 32) || (leb 9 c && leb c 13)

unfoldable pub skip_spaces : List ℕ → List ℕ
skip_spaces [] = []
skip_spaces (c ∷ cs) = if is_space c then skip_spaces cs else c ∷ cs

-- There are no spaces.
abbrev pub AllSolid : List ℕ → Type 0
AllSolid [] = Unit {0}
AllSolid (c ∷ cs) = (is_space c ≡ false) × AllSolid cs

pub skip_spaces-solid :
    (k : ℕ) (rest : List ℕ) → is_space k ≡ false → skip_spaces (k ∷ rest) ≡ k ∷ rest
unfolding skip_spaces
skip_spaces-solid k rest solid = ap (λ b. if b then skip_spaces rest else k ∷ rest) solid

abbrev pub AllSpace : List ℕ → Type 0
AllSpace [] = Unit {0}
AllSpace (c ∷ cs) = (is_space c ≡ true) × AllSpace cs

-- There is no NUL.
abbrev pub NoNul : List ℕ → Type 0
NoNul [] = Unit {0}
NoNul (c ∷ cs) = ((c == 0) ≡ false) × NoNul cs

pub c_string-NoNul : (cs : List ℕ) → NoNul cs → c_string cs ≡ cs
unfolding c_string
c_string-NoNul [] h = refl
c_string-NoNul (c ∷ cs) h =
    ap (λ b. if b then [] else c ∷ c_string cs) h.0 ∙ ap (λ l. c ∷ l) (c_string-NoNul cs h.1)

pub skip_spaces-AllSpace : (xs ys : List ℕ) → AllSpace xs → skip_spaces (xs ++ ys) ≡ skip_spaces ys
unfolding skip_spaces
skip_spaces-AllSpace [] ys h = refl
skip_spaces-AllSpace (x ∷ xs) ys h =
    ap (λ b. if b then skip_spaces (xs ++ ys) else x ∷ (xs ++ ys)) h.0
    ∙ skip_spaces-AllSpace xs ys h.1
