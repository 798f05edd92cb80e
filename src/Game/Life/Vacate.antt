-- ===== src/Game/Life/Vacate.antt =====
-- The slot that `m_remove_client_from_server` clears.
use zappy.Prelude.{
  some_inj, ℕ, ◌+◌, ◌≡◌, refl, subst, inl, inr, true, false, ◌==◌, Option, none, some, List, [],
  ◌∷◌, Bool, length, arith, Bool-cases, Option-cases, ==→eq, if◌then◌else◌,
}
use zappy.Game.Teams.{clear_slot}
use zappy.Game.Life.Seats.{count_team, Teamed, seats_of}
use zappy.Game.Life.Seated.{AllSlots}

-- The pointer stands in a slot.
abbrev pub holds : ℕ → List (Option ℕ) → Bool
holds c [] = false
holds c (none ∷ slots) = holds c slots
holds c (some d ∷ slots) = if d == c then true else holds c slots

pub record Cleared (f : ℕ → ℕ) (c : ℕ) (slots rest : List (Option ℕ)) : Type 0 where
  pub found : clear_slot c slots ≡ some rest
  pub size : length rest ≡ length slots
  pub count :
      (t : ℕ)
      → count_team t (seats_of f rest) + (if f c == t then 1 else 0)
        ≡ count_team t (seats_of f slots)
  pub teamed : (n : ℕ) → Teamed n (seats_of f slots) → Teamed n (seats_of f rest)

pub clear_slot-finds :
    (f : ℕ → ℕ) (c : ℕ) (slots : List (Option ℕ))
    → holds c slots ≡ true
    → (rest : List (Option ℕ)) × Cleared f c slots rest
unfolding clear_slot
clear_slot-finds f c [] h = absurd (ground arith)
clear_slot-finds f c (none ∷ slots) h =
    let (rest, r) = clear_slot-finds f c slots h in
    (
      none ∷ rest,
      record {
        found = rw (r.found) refl;
        size = omega (arith, r.size);
        count = r.count;
        teamed = r.teamed;
      },
    )
clear_slot-finds f c (some d ∷ slots) h = elim (Bool-cases (d == c)) [
  | inl here ↦ (
    none ∷ slots,
    record {
      found = rw (here, clear_slot) refl;
      size = refl;
      count = λ t. rw (==→eq d c here) (ground arith);
      teamed = λ n k. k.1;
    },
  )
  | inr other ↦
      let (rest, r) = clear_slot-finds f c slots (rw other at h) in
      (
        some d ∷ rest,
        record {
          found = rw (other, clear_slot, r.found) refl;
          size = omega (arith, r.size);
          count = λ t. ground (arith, r.count t);
          teamed = λ n k. (k.0, r.teamed n k.1);
        },
      )
]

pub clear_slot-AllSlots :
    (P : ℕ → Type 0) (c : ℕ) (slots rest : List (Option ℕ))
    → clear_slot c slots ≡ some rest
    → AllSlots P slots
    → AllSlots P rest
unfolding clear_slot
clear_slot-AllSlots P c [] rest e old = absurd (ground arith)
clear_slot-AllSlots P c (none ∷ slots) rest e old = elim (Option-cases (clear_slot c slots)) [
  | inl gone ↦ absurd (ground (arith, rw (gone, clear_slot) at e))
  | inr (r, there) ↦
      subst (AllSlots P) (some_inj (rw (there, clear_slot) at e))
        (clear_slot-AllSlots P c slots r there old)
]
clear_slot-AllSlots P c (some d ∷ slots) rest e old = elim (Bool-cases (d == c)) [
  | inl here ↦ subst (AllSlots P) (some_inj (rw (here, clear_slot) at e)) old.1
  | inr other ↦ elim (Option-cases (clear_slot c slots)) [
    | inl gone ↦ absurd (ground (arith, rw (other, gone, clear_slot) at e))
    | inr (r, there) ↦
        subst (AllSlots P) (some_inj (rw (other, there, clear_slot) at e))
          (old.0, clear_slot-AllSlots P c slots r there old.1)
  ]
]
