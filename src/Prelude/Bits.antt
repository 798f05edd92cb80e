-- ===== src/Prelude/Bits.antt =====
-- The operations on bytes that the WebSocket layer does with masks and shifts, as arithmetic.
use Prim.Native.Nat.{
  ℕ, zero, suc, ◌+◌, ◌-◌, ◌*◌, ◌/◌, ◌%◌, ◌≤◌, ◌<◌, min, max, bit_and, bit_or, bit_xor, digits,
  bitwise, differ, bit_and-bitwise, bit_or-bitwise, bit_xor-bitwise,
}
use mathlib.Core.Path.{◌≡◌, refl, ◌∙◌, ap, sym}
use native.Mathlib.Omega.{arith}

module _ (z : ℕ → ℕ) (f : ℕ → ℕ → ℕ) where
  -- Rounds beyond the digits of the first number change nothing.
  spare_round : (n a b : ℕ) → a ≤ n → digits z f (suc n) a b ≡ digits z f n a b
  spare_round zero zero b h = refl
  spare_round (suc n) zero b h = refl
  spare_round zero (suc a) b h = absurd (omega arith)
  spare_round (suc n) (suc a) b h =
      ap (λ q. q * 2 + f (suc a % 2) (b % 2)) (spare_round n (suc a / 2) (b / 2) (omega arith))

  spare_rounds : (k n a b : ℕ) → a ≤ n → digits z f (k + n) a b ≡ digits z f n a b
  spare_rounds zero n a b h = ap (λ q. digits z f q a b) (omega arith)
  spare_rounds (suc k) n a b h =
      let next : suc k + n ≡ suc (k + n) = omega arith in
      ap (λ q. digits z f q a b) next
      ∙ spare_round (k + n) a b (omega arith)
      ∙ spare_rounds k n a b h

  -- An operation on digits, taken apart at the lowest digit; `top` is the same of what it gives
  -- once the first number has run out.
  module _ (op : ℕ → ℕ → ℕ) (law : (a b : ℕ) → op a b ≡ bitwise z f a b)
      (top : (b : ℕ) → z b ≡ z (b / 2) * 2 + f 0 (b % 2)) where
    lowest : (a b : ℕ) → op a b ≡ op (a / 2) (b / 2) * 2 + f (a % 2) (b % 2)
    lowest zero b = law 0 b ∙ top b ∙ ap (λ q. q * 2 + f 0 (b % 2)) (sym (law 0 (b / 2)))
    lowest (suc a) b =
        let half = suc a / 2 in
        let fuel : a ≡ (a - half) + half = omega arith in
        law (suc a) b
        ∙ ap (λ q. q * 2 + f (suc a % 2) (b % 2))
            (ap (λ q. digits z f q half (b / 2)) fuel
              ∙ spare_rounds (a - half) half half (b / 2) (omega arith)
              ∙ sym (law half (b / 2)))

    -- What the operation gives with 0, if `g` is taken apart in the same way.
    with_zero :
        (g : ℕ → ℕ)
        → g 0 ≡ z 0
        → ((a : ℕ) → g a ≡ g (a / 2) * 2 + f (a % 2) 0)
        → (n a : ℕ) → a ≤ n
        → op a 0 ≡ g a
    with_zero g start split n zero h = law 0 0 ∙ sym start
    with_zero g start split zero (suc a) h = absurd (omega arith)
    with_zero g start split (suc n) (suc a) h =
        lowest (suc a) 0
        ∙ ap (λ q. q * 2 + f (suc a % 2) 0) (with_zero g start split n (suc a / 2) (omega arith))
        ∙ sym (split (suc a))

and_lowest : (a b : ℕ) → bit_and a b ≡ bit_and (a / 2) (b / 2) * 2 + min (a % 2) (b % 2)
and_lowest = lowest (λ b. zero) min bit_and (λ a b. bit_and-bitwise a b) (λ b. omega arith)

or_lowest : (a b : ℕ) → bit_or a b ≡ bit_or (a / 2) (b / 2) * 2 + max (a % 2) (b % 2)
or_lowest = lowest (λ b. b) max bit_or (λ a b. bit_or-bitwise a b) (λ b. omega arith)

xor_lowest : (a b : ℕ) → bit_xor a b ≡ bit_xor (a / 2) (b / 2) * 2 + differ (a % 2) (b % 2)
xor_lowest = lowest (λ b. b) differ bit_xor (λ a b. bit_xor-bitwise a b) (λ b. omega arith)

and_nothing : (a : ℕ) → bit_and a 0 ≡ 0
and_nothing a =
    with_zero (λ b. zero) min bit_and (λ a b. bit_and-bitwise a b) (λ b. omega arith) (λ q. 0) refl
      (λ q. omega arith) a a (omega arith)

or_nothing : (a : ℕ) → bit_or a 0 ≡ a
or_nothing a =
    with_zero (λ b. b) max bit_or (λ a b. bit_or-bitwise a b) (λ b. omega arith) (λ q. q) refl
      (λ q. omega arith) a a (omega arith)

pub low_nibble : (a : ℕ) → bit_and a 15 ≡ a % 16
low_nibble a = omega (
  arith,
  and_lowest a 15,
  and_lowest (a / 2) 7,
  and_lowest (a / 2 / 2) 3,
  and_lowest (a / 2 / 2 / 2) 1,
  and_nothing (a / 2 / 2 / 2 / 2),
)

and_odd : (a k m : ℕ) → k ≡ 2 * m + 1 → bit_and a k ≡ bit_and (a / 2) m * 2 + a % 2
and_odd a k m e =
    let half : k / 2 ≡ m = omega arith in
    let last : k % 2 ≡ 1 = omega arith in and_lowest a k ∙ rw (half, last) (ground arith)

-- Four more digits of a mask of ones.
and_four : (a k m : ℕ) → k ≡ 16 * m + 15 → bit_and a k ≡ 16 * bit_and (a / 16) m + a % 16
and_four a k m e =
    let split : a / 2 / 2 / 2 / 2 ≡ a / 16 = omega arith in
    let top = ap (λ q. bit_and q m) split in
    omega (
      arith,
      top,
      and_odd a k (8 * m + 7) (omega arith),
      and_odd (a / 2) (8 * m + 7) (4 * m + 3) (omega arith),
      and_odd (a / 2 / 2) (4 * m + 3) (2 * m + 1) (omega arith),
      and_odd (a / 2 / 2 / 2) (2 * m + 1) m (omega arith),
    )

pub low_byte : (a : ℕ) → bit_and a 255 ≡ a % 256
low_byte a = omega (arith, and_four a 255 15 refl, low_nibble (a / 16))

pub low_seven : (a : ℕ) → bit_and a 127 ≡ a % 128
low_seven a = omega (
  arith,
  and_four a 127 7 refl,
  and_lowest (a / 16) 7,
  and_lowest (a / 16 / 2) 3,
  and_lowest (a / 16 / 2 / 2) 1,
  and_nothing (a / 16 / 2 / 2 / 2),
)

or_even : (a k b : ℕ) → k ≡ 2 * a → bit_or k b ≡ bit_or a (b / 2) * 2 + b % 2
or_even a k b e =
    let half : k / 2 ≡ a = omega arith in
    let last : k % 2 ≡ 0 = omega arith in or_lowest k b ∙ rw (half, last) (ground arith)

-- A byte put under a number that was shifted by eight places.
pub or_byte : (a b : ℕ) → b < 256 → bit_or (256 * a) b ≡ 256 * a + b
or_byte a b h =
    let gone : b / 2 / 2 / 2 / 2 / 2 / 2 / 2 / 2 ≡ 0 = omega arith in
    let top = ap (bit_or a) gone ∙ or_nothing a in
    omega (
      arith,
      top,
      or_even (128 * a) (256 * a) b (omega arith),
      or_even (64 * a) (128 * a) (b / 2) (omega arith),
      or_even (32 * a) (64 * a) (b / 2 / 2) (omega arith),
      or_even (16 * a) (32 * a) (b / 2 / 2 / 2) (omega arith),
      or_even (8 * a) (16 * a) (b / 2 / 2 / 2 / 2) (omega arith),
      or_even (4 * a) (8 * a) (b / 2 / 2 / 2 / 2 / 2) (omega arith),
      or_even (2 * a) (4 * a) (b / 2 / 2 / 2 / 2 / 2 / 2) (omega arith),
      or_even a (2 * a) (b / 2 / 2 / 2 / 2 / 2 / 2 / 2) (omega arith),
    )

differ_twice : (a b : ℕ) → a < 2 → b < 2 → (differ (differ a b) b ≡ a) × (differ a b < 2)
differ_twice zero zero p q = ground arith
differ_twice zero (suc zero) p q = ground arith
differ_twice (suc zero) zero p q = ground arith
differ_twice (suc zero) (suc zero) p q = ground arith
differ_twice (suc (suc a)) b p q = absurd (omega arith)
differ_twice a (suc (suc b)) p q = absurd (omega arith)

digit_cases : (x c d : ℕ) → x ≡ c * 2 + d → d < 2 → (x / 2 ≡ c) × (x % 2 ≡ d)
digit_cases x c d e h = (omega arith, omega arith)

xor_twice_fuel : (n a b : ℕ) → a ≤ n → b ≤ n → bit_xor (bit_xor a b) b ≡ a
xor_twice_fuel zero zero zero p q = refl
xor_twice_fuel zero (suc a) b p q = absurd (omega arith)
xor_twice_fuel zero a (suc b) p q = absurd (omega arith)
xor_twice_fuel (suc n) a b p q =
    let (twice, small) = differ_twice (a % 2) (b % 2) (omega arith) (omega arith) in
    let (half, last) =
      digit_cases (bit_xor a b) (bit_xor (a / 2) (b / 2)) (differ (a % 2) (b % 2)) (xor_lowest a b)
        small in
    let rest = xor_twice_fuel n (a / 2) (b / 2) (omega arith) (omega arith) in
    xor_lowest (bit_xor a b) b ∙ rw (half, last, twice, rest) (omega arith)

-- Masking twice gives the byte back.
pub xor_twice : (a b : ℕ) → bit_xor (bit_xor a b) b ≡ a
xor_twice a b = xor_twice_fuel (a + b) a b (omega arith) (omega arith)
