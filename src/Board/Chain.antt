-- ===== src/Board/Chain.antt =====
-- The doubly linked list of the players on a tile, as a predicate on the players' memory.
use zappy.Prelude.{
  ℕ, ◌≡◌, ◌≢◌, ◌⊎◌, inl, inr, Bool, true, false, ◌==◌, Option, none, some, List, [], ◌∷◌, arith,
  Bool-cases, if◌then◌else◌,
}
use zappy.Board.{Player}

abbrev pub elem : ℕ → List ℕ → Bool
elem p [] = false
elem p (q ∷ qs) = if q == p then true else elem p qs

abbrev pub Distinct : List ℕ → Type 0
Distinct [] = Unit {0}
Distinct (q ∷ qs) = (elem q qs ≡ false) × Distinct qs

abbrev pub remove : ℕ → List ℕ → List ℕ
remove p [] = []
remove p (q ∷ qs) = if q == p then qs else q ∷ remove p qs

-- From `first` on, the `next_on_tile` links go through `ps` and end in a null pointer, and the
-- `prev_on_tile` links go back, to `prev` at the front.
abbrev pub Chain : (ℕ → Player) → Option ℕ → Option ℕ → List ℕ → Type 0
Chain mem prev first [] = first ≡ none
Chain mem prev first (p ∷ ps) =
    (first ≡ some p) × ((mem p).prev_on_tile ≡ prev) × Chain mem (some p) (mem p).next_on_tile ps

-- Both links of the players of a list are the same in two memories.
abbrev pub SameLinks : (ℕ → Player) → (ℕ → Player) → List ℕ → Type 0
SameLinks mem mem' [] = Unit {0}
SameLinks mem mem' (p ∷ ps) =
    ((mem' p).next_on_tile ≡ (mem p).next_on_tile)
    × ((mem' p).prev_on_tile ≡ (mem p).prev_on_tile)
    × SameLinks mem mem' ps

pub Chain-frame :
    (mem mem' : ℕ → Player) (prev first : Option ℕ) (ps : List ℕ)
    → SameLinks mem mem' ps
    → Chain mem prev first ps
    → Chain mem' prev first ps
Chain-frame mem mem' prev first [] s c = c
Chain-frame mem mem' prev first (p ∷ ps) s c =
    (c.0, ground arith, rw s.0 (Chain-frame mem mem' (some p) (mem p).next_on_tile ps s.2 c.2))

-- The player behind one of the list is in the list.
pub next_in :
    (mem : ℕ → Player) (prev first : Option ℕ) (ps : List ℕ) (p s : ℕ)
    → Chain mem prev first ps
    → elem p ps ≡ true
    → (mem p).next_on_tile ≡ some s
    → elem s ps ≡ true
next_in mem prev first [] p s c e n = cc
next_in mem prev first (q ∷ []) p s c e n = ground arith
next_in mem prev first (q ∷ r ∷ ps) p s c e n =
    ground (arith, next_in mem (some q) (mem q).next_on_tile (r ∷ ps) p s)

-- The player before one of the list is in the list, or stands before all of it.
pub prev_in :
    (mem : ℕ → Player) (prev first : Option ℕ) (ps : List ℕ) (p : ℕ)
    → Chain mem prev first ps
    → elem p ps ≡ true
    → ((first ≡ some p) × ((mem p).prev_on_tile ≡ prev))
      ⊎ ((s : ℕ) × ((mem p).prev_on_tile ≡ some s) × (elem s ps ≡ true))
prev_in mem prev first [] p c e = cc
prev_in mem prev first (q ∷ qs) p c e = elim (Bool-cases (q == p)) [
  | inl here ↦ inl (ground arith, ground arith)
  | inr there ↦ elim (prev_in mem (some q) (mem q).next_on_tile qs p c.2 (ground arith)) [
    | inl (f, pr) ↦ inr (q, pr, ground arith)
    | inr (s, pr, m) ↦ inr (s, pr, ground arith)
  ]
]

-- No player of a list without repetitions links to itself.
pub Distinct-next_ne :
    (mem : ℕ → Player) (prev first : Option ℕ) (ps : List ℕ) (p : ℕ)
    → Chain mem prev first ps
    → Distinct ps
    → elem p ps ≡ true
    → (mem p).next_on_tile ≢ some p
Distinct-next_ne mem prev first [] p c d e n = cc
Distinct-next_ne mem prev first (q ∷ []) p c d e n = ground arith
Distinct-next_ne mem prev first (q ∷ r ∷ ps) p c d e n =
    ground (arith, Distinct-next_ne mem (some q) (mem q).next_on_tile (r ∷ ps) p c.2 d.1)

pub Distinct-prev_ne :
    (mem : ℕ → Player) (prev first : Option ℕ) (ps : List ℕ) (p : ℕ)
    → Chain mem prev first ps
    → Distinct ps
    → elem p ps ≡ true
    → prev ≢ some p
    → (mem p).prev_on_tile ≢ some p
Distinct-prev_ne mem prev first [] p c d e f n = cc
Distinct-prev_ne mem prev first (q ∷ qs) p c d e f n =
    ground (arith, Distinct-prev_ne mem (some q) (mem q).next_on_tile qs p c.2 d.1)
