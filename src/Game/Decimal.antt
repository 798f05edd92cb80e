-- ===== src/Game/Decimal.antt =====
-- `snprintf` with "%d" and `atoi` of the C library, on numbers that are not negative.
use Prim.Native.Char.{Char, code}
use zappy.Prelude.{
  ℕ, zero, suc, ◌+◌, ◌-◌, ◌*◌, ◌/◌, ◌%◌, ◌==◌, ltb, leb, if◌then◌else◌, ◌&&◌, String,
}

digit_char : ℕ → Char
digit_char n =
    if n == 0
    then "0"
    else if n == 1
    then "1"
    else if n == 2
    then "2"
    else if n == 3
    then "3"
    else if n == 4
    then "4"
    else if n == 5
    then "5"
    else if n == 6
    then "6"
    else if n == 7
    then "7"
    else if n == 8
    then "8"
    else "9"

-- The digits of `n` before the text `acc`; a number below 10 ^ fuel is printed in full.
decimal_from : ℕ → ℕ → String → String
unfolding digit_char
decimal_from zero n acc = acc
decimal_from (suc fuel) n acc =
    let text = String.◌∷◌ (digit_char (n % 10)) acc in
    let rest = decimal_from fuel (n / 10) text in if ltb n 10 then text else rest

-- "%d" of an `int`, which has ten digits at most.
unfoldable pub decimal : ℕ → String
unfolding decimal_from
decimal n = decimal_from 10 n String.[]

atoi_from : ℕ → String → ℕ
atoi_from acc String.[] = acc
atoi_from acc (String.◌∷◌ c s) =
    let next = atoi_from (acc * 10 + (code c - 48)) s in
    if leb 48 (code c) && leb (code c) 57 then next else acc

-- `atoi` of a text with no sign and no space in front.
unfoldable pub atoi : String → ℕ
unfolding atoi_from
atoi s = atoi_from 0 s
