-- ===== src/FtList/Size.antt =====
-- The functions of ft_list.c that count the nodes of a list and look one up.
use zappy.Prelude.{
  ℕ, suc, ◌+◌, ◌≡◌, refl, ◌∙◌, inl, inr, false, ◌==◌, if◌then◌else◌, some, List, [], ◌∷◌, length,
  arith, ==_self, Bool-cases,
}
use zappy.Prelude.Int.{ℤ, pos, negsuc}
use zappy.Board.Chain.{elem}
use zappy.FtList.{ListItem, FtList, count_nodes, ft_list_get_size, find_from, ft_list_find_node}
use zappy.FtList.Ring.{Linked, IsRing}

-- One round of each loop.
count_step :
    (mem : ℕ → ListItem) (n h a b s : ℕ)
    → (mem a).next ≡ some b
    → count_nodes mem (suc n) h a s
      ≡ (if b == h then some (s + 1) else count_nodes mem n h b (s + 1))
unfolding count_nodes
count_step mem n h a b s e = rw (e, count_nodes) refl

count-through :
    (mem : ℕ → ListItem) (a : ℕ) (ys : List ℕ) (h s n : ℕ)
    → Linked mem a ys h
    → elem h ys ≡ false
    → count_nodes mem (length ys + suc n) h a s ≡ some (s + suc (length ys))
count-through mem a [] h s n k e =
    let z : 0 + suc n ≡ suc n = omega arith in
    rw z (count_step mem n h a h s k.0 ∙ rw (==_self h) refl)
count-through mem a (y ∷ ys) h s n k e =
    let z : suc (length ys) + suc n ≡ suc (length ys + suc n) = omega arith in
    let ne : (y == h) ≡ false = ground arith in
    let m : s + 1 + suc (length ys) ≡ s + suc (suc (length ys)) = omega arith in
    rw z (
      count_step mem (length ys + suc n) h a y s k.0
      ∙ rw (ne, count-through mem y ys h (s + 1) n k.2 (ground arith), m) refl)

-- `ft_list_get_size` on a list with the nodes `x ∷ xs`: with fuel for each node it ends, and gives
-- their number.
pub get_size-IsRing :
    (l : FtList) (x : ℕ) (xs : List ℕ) (n : ℕ)
    → IsRing l x xs
    → ft_list_get_size (length (x ∷ xs) + n) l ≡ some (length (x ∷ xs))
unfolding ft_list_get_size
get_size-IsRing l x xs n r =
    let z : length (x ∷ xs) + n ≡ length xs + suc n = omega arith in
    let m : 0 + suc (length xs) ≡ suc (length xs) = omega arith in
    rw (r.head, z, count-through l.item_at x xs x 0 n r.linked r.distinct.0, m, ft_list_get_size)
      refl

-- The place of a node in a list that has it, counted from `i`, and -1 for one that it has not.
abbrev pub index_of : ℕ → List ℕ → ℕ → ℤ
index_of p [] i = negsuc 0
index_of p (q ∷ qs) i = if q == p then pos i else index_of p qs (i + 1)

find_step :
    (mem : ℕ → ListItem) (n h p a b i : ℕ)
    → (mem a).next ≡ some b
    → find_from mem (suc n) h p a i ≡ (
        if a == p
        then some (pos i)
        else if b == h
        then some (negsuc 0)
        else find_from mem n h p b (i + 1))
unfolding find_from
find_step mem n h p a b i e = rw (e, find_from) refl

find-through :
    (mem : ℕ → ListItem) (a : ℕ) (ys : List ℕ) (h p i n : ℕ)
    → Linked mem a ys h
    → elem h ys ≡ false
    → find_from mem (length ys + suc n) h p a i ≡ some (index_of p (a ∷ ys) i)
find-through mem a [] h p i n k e =
    let z : 0 + suc n ≡ suc n = omega arith in
    rw z (find_step mem n h p a h i k.0 ∙ rw (==_self h) (ground arith))
find-through mem a (y ∷ ys) h p i n k e =
    let z : suc (length ys) + suc n ≡ suc (length ys + suc n) = omega arith in
    let ne : (y == h) ≡ false = ground arith in
    let far = find-through mem y ys h p (i + 1) n k.2 (ground arith) in
    rw z (
      find_step mem (length ys + suc n) h p a y i k.0
      ∙ elim (Bool-cases (a == p)) [ inl here ↦ rw here refl | inr there ↦ rw (there, ne) far ])

-- `ft_list_find_node` on a list with the nodes `x ∷ xs`: with fuel for each node it ends, and gives
-- the place of the node, counted from 0 at the head, or FAILURE for a node that is not in the list.
pub find_node-IsRing :
    (l : FtList) (x : ℕ) (xs : List ℕ) (p n : ℕ)
    → IsRing l x xs
    → ft_list_find_node (length (x ∷ xs) + n) l (some p) ≡ some (index_of p (x ∷ xs) 0)
unfolding ft_list_find_node
find_node-IsRing l x xs p n r =
    let z : length (x ∷ xs) + n ≡ length xs + suc n = omega arith in
    rw (r.head, z, find-through l.item_at x xs x p 0 n r.linked r.distinct.0, ft_list_find_node)
      refl
