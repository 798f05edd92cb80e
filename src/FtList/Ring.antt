-- ===== src/FtList/Ring.antt =====
-- The nodes of a list of ft_list.c, and which of them its operations give.
use zappy.Prelude.{
  ℕ, suc, ◌+◌, ◌≡◌, refl, ◌∙◌, false, ◌==◌, if◌then◌else◌, Option, none, some, List, [], ◌∷◌,
  length, arith, ==_self,
}
use zappy.Board.Chain.{elem, Distinct}
use zappy.FtList.{ListItem, FtList, walk_back, ft_list_get_next, ft_list_get_first, clients_from}

-- From `a` through the nodes `ys` to `b`, in both directions.
abbrev pub Linked : (ℕ → ListItem) → ℕ → List ℕ → ℕ → Type 0
Linked mem a [] b = ((mem a).next ≡ some b) × ((mem b).prev ≡ some a)
Linked mem a (y ∷ ys) b = ((mem a).next ≡ some y) × ((mem y).prev ≡ some a) × Linked mem y ys b

-- The list consists of the nodes `x ∷ xs`, in that order, `x` being the head.
pub record IsRing (l : FtList) (x : ℕ) (xs : List ℕ) : Type 0 where
  pub head : l.head ≡ some x
  pub linked : Linked l.item_at x xs x
  pub distinct : Distinct (x ∷ xs)

back_step :
    (mem : ℕ → ListItem) (n h b a : ℕ)
    → (mem b).prev ≡ some a
    → (a == h) ≡ false
    → walk_back mem (suc n) h b ≡ walk_back mem n h a
unfolding walk_back
back_step mem n h b a e ne = rw (e, walk_back, ne) refl

back_end :
    (mem : ℕ → ListItem) (n h b : ℕ) → (mem b).prev ≡ some h → walk_back mem (suc n) h b ≡ some b
unfolding walk_back
back_end mem n h b e = rw (e, walk_back, ==_self h) refl

-- Going back through a part without the head takes one round for each node.
walk_back-through :
    (mem : ℕ → ListItem) (a : ℕ) (ys : List ℕ) (b h n : ℕ)
    → Linked mem a ys b
    → elem h (a ∷ ys) ≡ false
    → walk_back mem (length ys + suc n) h b ≡ walk_back mem n h a
walk_back-through mem a [] b h n k e =
    let z : 0 + suc n ≡ suc n = omega arith in rw z (back_step mem n h b a k.1 (ground arith))
walk_back-through mem a (y ∷ ys) b h n k e =
    let z : suc (length ys) + suc n ≡ length ys + suc (suc n) = omega arith in
    rw (z, walk_back-through mem y ys b h (suc n) k.2 (ground arith))
      (back_step mem n h y a k.1 (ground arith))

-- What the list's first node is for `ft_list_get_first`.
abbrev pub second_or_only : ℕ → List ℕ → ℕ
second_or_only x [] = x
second_or_only x (y ∷ ys) = y

-- `ft_list_get_first` on a list with the nodes `x ∷ xs`, the head `x` first: with fuel for each
-- node it ends, and it returns the node behind the head, and the head only where there is no
-- other node.
pub get_first-IsRing :
    (l : FtList) (x : ℕ) (xs : List ℕ) (n : ℕ)
    → IsRing l x xs
    → ft_list_get_first (length (x ∷ xs) + n) l ≡ some (some (second_or_only x xs))
unfolding ft_list_get_first
get_first-IsRing l x [] n r =
    let z : 1 + n ≡ suc n = omega arith in
    rw (r.head, z, back_end l.item_at n x x r.linked.1, ft_list_get_first) refl
get_first-IsRing l x (y ∷ ys) n r =
    let z : suc (suc (length ys)) + n ≡ length ys + suc (suc n) = omega arith in
    rw
      (
        r.head,
        z,
        walk_back-through l.item_at y ys x x (suc n) r.linked.2 (r.distinct.0),
        back_end l.item_at n x y r.linked.1,
        ft_list_get_first,
      )
      refl

next_step :
    (l : FtList) (h a b : ℕ)
    → l.head ≡ some h
    → (l.item_at a).next ≡ some b
    → ft_list_get_next l a ≡ (if b == h then none else some b)
unfolding ft_list_get_next
next_step l h a b e k = rw (e, k, ft_list_get_next) refl

clients_step :
    (l : FtList) (n a : ℕ) (c : Option ℕ) (rest : List ℕ)
    → ft_list_get_next l a ≡ c
    → clients_from n l c ≡ some rest
    → clients_from (suc n) l (some a) ≡ some (a ∷ rest)
unfolding clients_from
clients_step l n a c rest e k = rw (e, k, clients_from) refl

clients_end : (l : FtList) (n : ℕ) → clients_from n l none ≡ some []
unfolding clients_from
clients_end l n = refl

-- The loop goes from a node to the end of the list.
pub clients_from-through :
    (l : FtList) (h a : ℕ) (ys : List ℕ) (n : ℕ)
    → l.head ≡ some h
    → Linked l.item_at a ys h
    → elem h ys ≡ false
    → clients_from (length ys + suc n) l (some a) ≡ some (a ∷ ys)
clients_from-through l h a [] n e k m =
    let z : 0 + suc n ≡ suc n = omega arith in
    rw z
      (clients_step l n a none [] (next_step l h a h e k.0 ∙ rw (==_self h) refl) (clients_end l n))
clients_from-through l h a (y ∷ ys) n e k m =
    let z : suc (length ys) + suc n ≡ suc (length ys + suc n) = omega arith in
    let ne : (y == h) ≡ false = ground arith in
    rw z (
      clients_step l (length ys + suc n) a (some y) (y ∷ ys) (next_step l h a y e k.0 ∙ rw ne refl)
        (clients_from-through l h y ys n e k.2 (ground arith)))
