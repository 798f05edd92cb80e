-- ===== src/Game/Incantation/Levels.antt =====
-- The end of an incantation raises the levels of those that took part, and of nobody else.
use zappy.Prelude.{
  Status-cases, ◌≤◌, ◌⊎◌, leb, ℕ, ◌+◌, ◌<◌, ◌≡◌, refl, inl, inr, Bool, true, false, ◌==◌,
  if◌then◌else◌, List, [], ◌∷◌, success, arith, Bool-cases, ==→eq,
}
use zappy.Board.Chain.{Distinct, elem}
use zappy.Game.{World, Reply, respond}
use zappy.Game.Incantation.{level_max, can_incantation, raise_level, raise_levels, end_incantation}

abbrev pub level_of : World → ℕ → ℕ
level_of w q = (w.player_at q).level

level-raise_level :
    (w : World) (initial q r : ℕ)
    → level_of (raise_level w initial q) r ≡ (
        if q == r
        then if level_of w r == initial then initial + 1 else level_of w r
        else level_of w r)
unfolding raise_level respond
level-raise_level w initial q r = ground arith

-- After the loop a player of the list that had the initial level has the next one; the level of
-- any other player is what it was. Condition: nobody stands in the list twice.
pub level-raise_levels :
    (w : World) (initial : ℕ) (qs : List ℕ) (r : ℕ)
    → Distinct qs
    → level_of (raise_levels w initial qs) r ≡ (
        if elem r qs
        then if level_of w r == initial then initial + 1 else level_of w r
        else level_of w r)
unfolding raise_levels
level-raise_levels w initial [] r d = refl
level-raise_levels w initial (q ∷ qs) r d = elim (Bool-cases (q == r)) [
  | inl here ↦
      let gone : elem r qs ≡ false = rw (← ==→eq q r here) d.0 in
      rw (
        level-raise_levels (raise_level w initial q) initial qs r d.1,
        gone,
        level-raise_level w initial q r,
        here,
      )
  | inr other ↦ rw (
    level-raise_levels (raise_level w initial q) initial qs r d.1,
    level-raise_level w initial q r,
    other,
  )
]

level-respond : (w : World) (t : Reply) (r : ℕ) → level_of (respond w t).1 r ≡ level_of w r
unfolding respond
level-respond w t r = ground arith

can_below :
    (w : World) (p : ℕ) (b : Bool) (on_tile : List ℕ)
    → can_incantation w p b on_tile ≡ success
    → level_of w p < level_max
unfolding can_incantation
can_below w p b on_tile h = elim (Bool-cases (leb level_max (level_of w p))) [
  | inl full ↦ cc (rw (full, can_incantation) at h)
  | inr room ↦ ground arith
]

raised :
    (w : World) (initial r : ℕ) (on : Bool) (after : ℕ)
    → initial < level_max
    → after
      ≡ (if on then if level_of w r == initial then initial + 1 else level_of w r else level_of w r)
    → ((after ≡ level_of w r) ⊎ ((after ≡ initial + 1) × (level_of w r ≡ initial) × (on ≡ true)))
      × (level_of w r ≤ level_max → after ≤ level_max)
raised w initial r true after h e = ground arith
raised w initial r false after h e = ground arith

-- `m_command_real_incantation`: whether it succeeds or not, a player's level afterwards is what it
-- was or one more; it is one more only for players on the list of the tile whose level was
-- `initial`; and if nobody was above LEVEL_MAX, nobody is. Condition: nobody stands in the list
-- twice.
pub level-end_incantation :
    (w : World) (p initial : ℕ) (on_tile : List ℕ) (r : ℕ)
    → Distinct on_tile
    → let after = level_of (end_incantation w p initial on_tile).1 r in
      ((after ≡ level_of w r)
        ⊎ ((after ≡ initial + 1) × (level_of w r ≡ initial) × (elem r on_tile ≡ true)))
      × (level_of w r ≤ level_max → after ≤ level_max)
unfolding end_incantation
level-end_incantation w p initial on_tile r d =
    elim (Bool-cases ((w.player_at p).level == initial)) [
      | inr other ↦ rw (other, level-respond w) (inl refl, λ h. h)
      | inl same ↦ elim (Status-cases (can_incantation w p false on_tile)) [
        | inr no_ ↦ rw (same, no_, level-respond w) (inl refl, λ h. h)
        | inl can ↦
            rw (same, can, level-respond (raise_levels w initial on_tile))
              (raised w initial r (elem r on_tile) _
                (ground (arith, can_below w p false on_tile can))
                (level-raise_levels w initial on_tile r d))
      ]
    ]
