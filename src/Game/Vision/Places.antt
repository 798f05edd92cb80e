-- ===== src/Game/Vision/Places.antt =====
-- What `voir` looks at: how many places, where they are, and when it can show a player.
use native.Mathlib.Nat.{add-zero, mod-mod, div-add-mod, mod-lt, mul-mod_right, zero-mod}
use zappy.Prelude.{
  inl, inr, ℕ, zero, suc, ◌+◌, ◌-◌, ◌*◌, ◌/◌, ◌%◌, ◌<◌, ◌≡◌, refl, ◌==◌, if◌then◌else◌, List, [],
  ◌∷◌, ◌++◌, arith, length, length-append, Bool-cases,
}
use zappy.Prelude.Int.{ℤ, pos, negsuc, pos_part, neg_part}
use zappy.Board.{Board, Direction, Position, Player}
use zappy.Board.View.{InMap}
use zappy.Game.Vision.{wrap, rel_x, rel_y, seen_place, seen_row, seen_rows, seen}

wrap-lt : (v : ℤ) (m : ℕ) → 0 < m → wrap v m < m
unfolding wrap
wrap-lt (pos n) m h = omega arith
wrap-lt (negsuc n) m h = ground arith

negative : (n m : ℕ) → 0 < m → ((if suc n % m == 0 then 0 else m - suc n % m) + suc n) % m ≡ 0 % m
negative n m h = elim (Bool-cases (suc n % m == 0)) [
  | inl e ↦ rw e (let zero_left : (0 + suc n) % m ≡ 0 % m = grind arith in zero_left)
  | inr e ↦
      let whole : m - suc n % m + suc n ≡ m * (suc n / m + 1) =
        omega (arith, div-add-mod (suc n) m, mod-lt (suc n) h) in
      rw (e, whole, mul-mod_right m (suc n / m + 1), zero-mod m)
]

-- `wrap` is the remainder of a mathematician: in the range, and different from the argument by a
-- multiple of the modulus.
pub wrap-IsRemainder :
    (v : ℤ) (m : ℕ) → 0 < m → (wrap v m < m) × ((wrap v m + neg_part v) % m ≡ pos_part v % m)
unfolding wrap
wrap-IsRemainder (pos n) m h = (omega arith, rw (add-zero, mod-mod n m))
wrap-IsRemainder (negsuc n) m h = (ground arith, negative n m h)

length-seen_row :
    (b : Board) (dir : Direction) (p : Position) (d n i : ℕ) → length (seen_row b dir p d n i) ≡ n
unfolding seen_row
length-seen_row b dir p d zero i = refl
length-seen_row b dir p d (suc n) i = omega (arith, length-seen_row b dir p d n (i + 1))

length-seen_rows :
    (b : Board) (dir : Direction) (p : Position) (n d : ℕ)
    → length (seen_rows b dir p n d) ≡ n * (n + 2 * d)
unfolding seen_rows
length-seen_rows b dir p zero d = omega arith
length-seen_rows b dir p (suc n) d = grind (
  arith,
  length-append (seen_row b dir p d (2 * d + 1) 0) (seen_rows b dir p n (d + 1)),
  length-seen_row b dir p d (2 * d + 1) 0,
  length-seen_rows b dir p n (d + 1),
)

-- A player of level n sees (n + 1)² places.
pub length-seen : (b : Board) (pl : Player) → length (seen b pl) ≡ (pl.level + 1) * (pl.level + 1)
unfolding seen
length-seen b pl = grind (arith, length-seen_rows b pl.dir pl.pos (pl.level + 1) 0)

abbrev pub All {ℓ κ} : {A : Type ℓ} → (A → Type κ) → List A → Type κ
All P [] = Unit
All P (x ∷ xs) = P x × All P xs

All-append {ℓ κ} :
    {A : Type ℓ} (P : A → Type κ) (xs ys : List A) → All P xs → All P ys → All P (xs ++ ys)
All-append P [] ys hx hy = hy
All-append P (x ∷ xs) ys hx hy = (hx.0, All-append P xs ys hx.1 hy)

seen_row-InMap :
    (b : Board) (dir : Direction) (p : Position) (d n i : ℕ)
    → 0 < b.map_x
    → 0 < b.map_y
    → All (InMap b) (seen_row b dir p d n i)
unfolding seen_row seen_place
seen_row-InMap b dir p d zero i hx hy = tt
seen_row-InMap b dir p d (suc n) i hx hy = (
  (wrap-lt (rel_x dir p d i) b.map_x hx, wrap-lt (rel_y dir p d i) b.map_y hy),
  seen_row-InMap b dir p d n (i + 1) hx hy,
)

seen_rows-InMap :
    (b : Board) (dir : Direction) (p : Position) (n d : ℕ)
    → 0 < b.map_x
    → 0 < b.map_y
    → All (InMap b) (seen_rows b dir p n d)
unfolding seen_rows
seen_rows-InMap b dir p zero d hx hy = tt
seen_rows-InMap b dir p (suc n) d hx hy =
    All-append (InMap b) (seen_row b dir p d (2 * d + 1) 0) (seen_rows b dir p n (d + 1))
      (seen_row-InMap b dir p d (2 * d + 1) 0 hx hy) (seen_rows-InMap b dir p n (d + 1) hx hy)

-- Every place that a player sees is a place of the map, if the map is not empty; so the array of
-- tiles is read inside its bounds.
pub seen-InMap : (b : Board) (pl : Player) → 0 < b.map_x → 0 < b.map_y → All (InMap b) (seen b pl)
unfolding seen
seen-InMap b pl hx hy = seen_rows-InMap b pl.dir pl.pos (pl.level + 1) 0 hx hy
