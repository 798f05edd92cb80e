-- ===== src/FtList/Append.antt =====
-- `ft_list_add_last` puts a node behind the others.
use zappy.Prelude.{
  ℕ, ◌≡◌, refl, ap, ◌∙◌, inl, inr, true, false, ◌==◌, none, some, List, [], ◌∷◌, ◌++◌, arith,
  Bool-cases, ==_self, ==_ne, ==→eq,
}
use zappy.Board.Chain.{elem, Distinct}
use zappy.FtList.{ListItem, FtList, ok, ft_list_add_last, link_last, single, add_to, add_behind}
use zappy.FtList.Ring.{Linked, IsRing}

-- The last of the nodes `a ∷ ys`.
abbrev pub last_of : ℕ → List ℕ → ℕ
last_of a [] = a
last_of a (y ∷ ys) = last_of y ys

pub prev-last :
    (mem : ℕ → ListItem) (a : ℕ) (ys : List ℕ) (b : ℕ)
    → Linked mem a ys b
    → (mem b).prev ≡ some (last_of a ys)
prev-last mem a [] b k = k.1
prev-last mem a (y ∷ ys) b k = prev-last mem y ys b k.2

pub last_in : (a : ℕ) (ys : List ℕ) → elem (last_of a ys) (a ∷ ys) ≡ true
last_in a [] = ground (arith, ==_self a)
last_in a (y ∷ ys) = ground (arith, last_in y ys)

pub elem_ne : (p q : ℕ) (ys : List ℕ) → elem p ys ≡ true → elem q ys ≡ false → (p == q) ≡ false
elem_ne p q ys e f = elim (Bool-cases (p == q)) [
  | inl same ↦ let g : elem q ys ≡ true = rw (← ==→eq p q same) e in absurd (ground (arith, g, f))
  | inr other ↦ other
]

-- What the writes behind the node `z`, before the head `b`, do to the links.
record Extends (mem mem' : ℕ → ListItem) (z n b : ℕ) : Type 0 where
  next_z : (mem' z).next ≡ some n
  prev_n : (mem' n).prev ≡ some z
  next_n : (mem' n).next ≡ some b
  prev_b : (mem' b).prev ≡ some n
  nexts : (q : ℕ) → (z == q) ≡ false → (n == q) ≡ false → (mem' q).next ≡ (mem q).next
  prevs : (q : ℕ) → (b == q) ≡ false → (n == q) ≡ false → (mem' q).prev ≡ (mem q).prev

extend :
    (mem mem' : ℕ → ListItem) (a : ℕ) (ys : List ℕ) (b n : ℕ)
    → Extends mem mem' (last_of a ys) n b
    → Linked mem a ys b
    → Distinct (a ∷ ys)
    → elem b ys ≡ false
    → elem n (a ∷ ys) ≡ false
    → Linked mem' a (ys ++ n ∷ []) b
extend mem mem' a [] b n x k d nb nn = (x.next_z, x.prev_n, (x.next_n, x.prev_b))
extend mem mem' a (y ∷ ys) b n x k d nb nn =
    let z_ne : (last_of y ys == a) ≡ false = elem_ne (last_of y ys) a (y ∷ ys) (last_in y ys) d.0 in
    let n_ne : (n == a) ≡ false = ground arith in
    let b_ne : (b == y) ≡ false = ground arith in
    let n_ne_y : (n == y) ≡ false = ground arith in
    (
      x.nexts a z_ne n_ne ∙ k.0,
      x.prevs y b_ne n_ne_y ∙ k.1,
      extend mem mem' y ys b n x k.2 d.1 (ground arith) (ground arith),
    )

link_last-Extends :
    (l : FtList) (b z n : ℕ)
    → (n == z) ≡ false
    → (n == b) ≡ false
    → Extends l.item_at (link_last l b z n).item_at z n b
link_last-Extends l b z n nz nb = record {
  next_z = ground arith;
  prev_n = ground arith;
  next_n = ground arith;
  prev_b = ground arith;
  nexts = λ q e f. ground arith;
  prevs = λ q e f. ground arith;
}

elem-append :
    (q : ℕ) (xs : List ℕ) (n : ℕ)
    → (n == q) ≡ false
    → elem q xs ≡ false
    → elem q (xs ++ n ∷ []) ≡ false
elem-append q [] n ne e = rw ne refl
elem-append q (x ∷ xs) n ne e = ground (arith, elem-append q xs n ne)

Distinct-append : (xs : List ℕ) (n : ℕ) → Distinct xs → elem n xs ≡ false → Distinct (xs ++ n ∷ [])
Distinct-append [] n d e = (refl, tt)
Distinct-append (x ∷ xs) n d e =
    (elem-append x xs n (ground arith) d.0, Distinct-append xs n d.1 (ground arith))

-- `ft_list_add_last` on a list with the nodes `x ∷ xs` and a node that is not one of them: it
-- returns OK, and the list has the nodes `x ∷ xs` and the new one behind them.
pub add_last-IsRing :
    (l : FtList) (x : ℕ) (xs : List ℕ) (n : ℕ)
    → IsRing l x xs
    → elem n (x ∷ xs) ≡ false
    → (l' : FtList) × (ft_list_add_last l (some n) ≡ some (ok, l')) × IsRing l' x (xs ++ n ∷ [])
unfolding ft_list_add_last
add_last-IsRing l x xs n r new =
    let z = last_of x xs in
    let nz : (n == z) ≡ false =
      ==_ne n z (λ same. absurd (ground (arith, elem_ne z n (x ∷ xs) (last_in x xs) new, same))) in
    (
      link_last l x z n,
      ap (add_to l n) r.head ∙ ap (add_behind l n x) (prev-last l.item_at x xs x r.linked),
      record {
        head = r.head;
        linked =
            extend l.item_at _ x xs x n (link_last-Extends l x z n nz (ground arith)) r.linked
              r.distinct r.distinct.0 new;
        distinct = Distinct-append (x ∷ xs) n r.distinct new;
      },
    )

-- On an empty list the new node becomes the head, the only node.
pub add_last-first :
    (l : FtList) (n : ℕ)
    → l.head ≡ none
    → (l' : FtList) × (ft_list_add_last l (some n) ≡ some (ok, l')) × IsRing l' n []
unfolding ft_list_add_last
add_last-first l n e = (
  single l n,
  ap (add_to l n) e,
  record { head = refl; linked = (ground arith, ground arith); distinct = (refl, tt) },
)
