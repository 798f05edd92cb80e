-- ===== src/Game/Life/Seats.antt =====
-- The slots of the clients and the counts of the teams: there is a slot for every player that the
-- teams admit.
use zappy.Prelude.{
  ℕ, zero, suc, ◌+◌, ◌≤◌, ◌<◌, ◌≡◌, refl, inl, inr, false, ◌==◌, if◌then◌else◌, Option, none, some,
  List, [], ◌∷◌, arith, length, ==_self, ==_ne, ℕ-cases,
}
use zappy.Game.Teams.{fill_slot}

-- f 0 + … + f (n - 1)
abbrev pub sum_upto : ℕ → (ℕ → ℕ) → ℕ
sum_upto zero f = 0
sum_upto (suc n) f = sum_upto n f + f n

-- The slots of team `t`, where a seat is the team of the player in a slot.
abbrev pub count_team : ℕ → List (Option ℕ) → ℕ
count_team t [] = 0
count_team t (none ∷ seats) = count_team t seats
count_team t (some u ∷ seats) = let rest = count_team t seats in if u == t then suc rest else rest

abbrev pub taken : List (Option ℕ) → ℕ
taken [] = 0
taken (none ∷ seats) = taken seats
taken (some u ∷ seats) = suc (taken seats)

-- Every seat belongs to one of the first `n` teams.
abbrev pub Teamed : ℕ → List (Option ℕ) → Type 0
Teamed n [] = Unit {0}
Teamed n (none ∷ seats) = Teamed n seats
Teamed n (some u ∷ seats) = (u < n) × Teamed n seats

sum_upto-cons_above :
    (n u : ℕ) (seats : List (Option ℕ))
    → n ≤ u
    → sum_upto n (λ t. count_team t (some u ∷ seats)) ≡ sum_upto n (λ t. count_team t seats)
sum_upto-cons_above zero u seats h = refl
sum_upto-cons_above (suc n) u seats h =
    let ne : (u == n) ≡ false = ground arith in rw (ne, sum_upto-cons_above n u seats (omega arith))

sum_upto-cons :
    (n u : ℕ) (seats : List (Option ℕ))
    → u < n
    → sum_upto n (λ t. count_team t (some u ∷ seats)) ≡ suc (sum_upto n (λ t. count_team t seats))
sum_upto-cons zero u seats h = absurd (omega arith)
sum_upto-cons (suc n) u seats h = elim (ℕ-cases u n) [
  | inl eq ↦ rw (eq, ==_self n, sum_upto-cons_above n n seats (omega arith)) (omega arith)
  | inr ne ↦ rw (==_ne u n ne, sum_upto-cons n u seats (omega arith)) (omega arith)
]

sum_upto-zero : (n : ℕ) → sum_upto n (λ t. 0) ≡ 0
sum_upto-zero zero = refl
sum_upto-zero (suc n) = omega (arith, sum_upto-zero n)

-- Counted team by team the taken slots are all the taken slots.
pub sum_upto-taken :
    (n : ℕ) (seats : List (Option ℕ))
    → Teamed n seats
    → sum_upto n (λ t. count_team t seats) ≡ taken seats
sum_upto-taken n [] h = sum_upto-zero n
sum_upto-taken n (none ∷ seats) h = sum_upto-taken n seats h
sum_upto-taken n (some u ∷ seats) h =
    omega (arith, sum_upto-cons n u seats h.0, sum_upto-taken n seats h.1)

sum_upto-le : (n : ℕ) (f g : ℕ → ℕ) → ((t : ℕ) → t < n → f t ≤ g t) → sum_upto n f ≤ sum_upto n g
sum_upto-le zero f g h = omega arith
sum_upto-le (suc n) f g h =
    omega (arith, h n (omega arith), sum_upto-le n f g (λ t k. h t (omega arith)))

pub sum_upto-lt :
    (n : ℕ) (f g : ℕ → ℕ) (u : ℕ)
    → ((t : ℕ) → t < n → f t ≤ g t)
    → u < n
    → f u < g u
    → sum_upto n f < sum_upto n g
sum_upto-lt zero f g u h k l = absurd (omega arith)
sum_upto-lt (suc n) f g u h k l = elim (ℕ-cases u n) [
  | inl eq ↦
      let last : f n < g n = rw eq at l in
      omega (arith, last, sum_upto-le n f g (λ t r. h t (omega arith)))
  | inr ne ↦
      omega
        (arith, h n (omega arith), sum_upto-lt n f g u (λ t r. h t (omega arith)) (omega arith) l)
]

pub sum_upto-same :
    (n : ℕ) (f g : ℕ → ℕ) → ((t : ℕ) → t < n → f t ≡ g t) → sum_upto n f ≡ sum_upto n g
sum_upto-same zero f g h = refl
sum_upto-same (suc n) f g h =
    omega (arith, h n (omega arith), sum_upto-same n f g (λ t k. h t (omega arith)))

module _ (seat : ℕ → ℕ) where
  -- The team of each slot, where `seat` gives the team of a client.
  abbrev pub seats_of : List (Option ℕ) → List (Option ℕ)
  seats_of [] = []
  seats_of (none ∷ slots) = none ∷ seats_of slots
  seats_of (some c ∷ slots) = some (seat c) ∷ seats_of slots

  pub length-seats_of : (slots : List (Option ℕ)) → length (seats_of slots) ≡ length slots
  length-seats_of [] = refl
  length-seats_of (none ∷ slots) = omega (arith, length-seats_of slots)
  length-seats_of (some c ∷ slots) = omega (arith, length-seats_of slots)

  -- A client fits in as long as not every slot is taken, and takes one seat of its team.
  pub fill_slot-fits :
      (c : ℕ) (slots : List (Option ℕ))
      → taken (seats_of slots) < length slots
      → (rest : List (Option ℕ)) × (fill_slot c slots ≡ some rest)
        × (length rest ≡ length slots)
        × ((t : ℕ)
            → count_team t (seats_of rest)
              ≡ count_team t (seats_of slots) + (if seat c == t then 1 else 0))
        × ((n : ℕ) → seat c < n → Teamed n (seats_of slots) → Teamed n (seats_of rest))
  unfolding fill_slot
  fill_slot-fits c [] h = absurd (omega arith)
  fill_slot-fits c (none ∷ slots) h =
      (some c ∷ slots, refl, refl, λ t. ground arith, λ n k l. (k, l))
  fill_slot-fits c (some d ∷ slots) h =
      let (rest, e, len, cnt, tm) = fill_slot-fits c slots (omega arith) in
      (
        some d ∷ rest,
        rw e,
        omega (arith, len),
        λ t. ground (arith, cnt t),
        λ n k l. (l.0, tm n k l.1),
      )
