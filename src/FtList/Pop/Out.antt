-- ===== src/FtList/Pop/Out.antt =====
-- The list that `ft_list_pop` leaves.
use zappy.Prelude.{
  ℕ, ◌≡◌, refl, ap, ◌∙◌, inl, inr, true, false, ◌&&◌, ◌==◌, none, some, List, [], ◌∷◌, ◌++◌, arith,
  ==_self, ==→eq, Bool-cases,
}
use zappy.Board.Chain.{elem, Distinct, remove}
use zappy.Board.View.{elem-remove, remove-Distinct}
use zappy.FtList.{ListItem, FtList, ok, close_gap, cut_off, pop_between, pop_from, ft_list_pop}
use zappy.FtList.Ring.{Linked, IsRing}
use zappy.FtList.Append.{last_of, prev-last, last_in, elem_ne}
use zappy.FtList.Pop.{close_gap-Closes, first_of, elem-mid, cut, turn}

-- The list has the nodes `qs`, in that order, the head first.
abbrev pub Holds : FtList → List ℕ → Type 0
Holds l [] = l.head ≡ none
Holds l (x ∷ xs) = IsRing l x xs

next-mid :
    (mem : ℕ → ListItem) (a : ℕ) (pre : List ℕ) (n : ℕ) (post : List ℕ) (b : ℕ)
    → Linked mem a (pre ++ n ∷ post) b
    → ((mem n).next ≡ some (first_of post b)) × ((mem n).prev ≡ some (last_of a pre))
next-mid mem a [] n [] b k = (k.2.0, k.1)
next-mid mem a [] n (y ∷ ys) b k = (k.2.0, k.1)
next-mid mem a (y ∷ pre) n post b k = next-mid mem y pre n post b k.2

-- What `ft_list_pop` does when both links of the node are read.
pop_reads :
    (l : FtList) (h n p q : ℕ)
    → l.head ≡ some h
    → (l.item_at n).prev ≡ some p
    → (l.item_at n).next ≡ some q
    → ft_list_pop l (some n) ≡ pop_between l h n (some p) (some q)
unfolding ft_list_pop
pop_reads l h n p q e f g =
    ap (pop_from l n) e
    ∙ ap (λ u. pop_between l h n u (l.item_at n).next) f
    ∙ ap (pop_between l h n (some p)) g

between-gap :
    (l : FtList) (h n p q : ℕ)
    → ((n == q) && (n == p)) ≡ false
    → pop_between l h n (some p) (some q) ≡ some (ok, cut_off (close_gap l h n p q) n)
between-gap l h n p q e = rw e refl

mem-split :
    (n : ℕ) (qs : List ℕ)
    → elem n qs ≡ true
    → (pre : List ℕ) × (post : List ℕ) × (qs ≡ pre ++ n ∷ post) × (remove n qs ≡ pre ++ post)
mem-split n [] e = absurd (ground arith)
mem-split n (q ∷ qs) e = elim (Bool-cases (q == n)) [
  | inl here ↦ ([], qs, ap (λ x. x ∷ qs) (==→eq q n here), rw here refl)
  | inr there ↦
      let (pre, post, split, less) = mem-split n qs (rw there at e) in
      (q ∷ pre, post, ap (◌∷◌ q) split, rw there (ap (◌∷◌ q) less))
]

pop_head :
    (l : FtList) (x : ℕ) (xs : List ℕ)
    → IsRing l x xs
    → (l' : FtList) × (ft_list_pop l (some x) ≡ some (ok, l')) × Holds l' xs
pop_head l x [] r =
    let both : ((x == x) && (x == x)) ≡ true = rw (==_self x) refl in
    (
      cut_off (record l { head = none }) x,
      pop_reads l x x x x r.head r.linked.1 r.linked.0 ∙ rw both refl,
      refl,
    )
pop_head l x (y ∷ ys) r =
    let z = last_of y ys in
    let zx : (z == x) ≡ false = elem_ne z x (y ∷ ys) (last_in y ys) r.distinct.0 in
    let xz : (x == z) ≡ false = ground (arith, zx) in
    let xy : (x == y) ≡ false = ground arith in
    let one : ((x == y) && (x == z)) ≡ false = rw xy refl in
    let c = close_gap-Closes l x z x y xz xy in
    (
      cut_off (close_gap l x x z y) x,
      pop_reads l x x z y r.head (prev-last l.item_at x (y ∷ ys) x r.linked) r.linked.0
          ∙ between-gap l x x z y one,
      record {
        head = rw (==_self x) refl;
        linked = turn l.item_at _ y ys x x y c r.linked.2 r.distinct.1 r.distinct.1.0 r.distinct.0;
        distinct = r.distinct.1;
      },
    )

-- A node of a list without repetition is neither before itself nor behind itself.
fresh : (pre : List ℕ) (n : ℕ) (post : List ℕ) → Distinct (pre ++ n ∷ post) → elem n pre ≡ false
fresh [] n post d = refl
fresh (a ∷ pre) n post d =
    let ne = elem_ne n a (pre ++ n ∷ post) (elem-mid n pre post) d.0 in
    ground (arith, ne, fresh pre n post d.1)

behind : (pre : List ℕ) (n : ℕ) (post : List ℕ) → Distinct (pre ++ n ∷ post) → elem n post ≡ false
behind [] n post d = d.0
behind (a ∷ pre) n post d = behind pre n post d.1

q_ne :
    (n x : ℕ) (post : List ℕ)
    → elem n post ≡ false
    → (n == x) ≡ false
    → (n == first_of post x) ≡ false
q_ne n x [] e f = f
q_ne n x (z ∷ zs) e f = ground arith

pop_middle :
    (l : FtList) (x : ℕ) (pre : List ℕ) (n : ℕ) (post : List ℕ)
    → IsRing l x (pre ++ n ∷ post)
    → Distinct (x ∷ pre ++ post)
    → (l' : FtList) × (ft_list_pop l (some n) ≡ some (ok, l')) × IsRing l' x (pre ++ post)
pop_middle l x pre n post r d =
    let p = last_of x pre in
    let q = first_of post x in
    let links = next-mid l.item_at x pre n post x r.linked in
    let np : (n == p) ≡ false =
      ground (arith, elem_ne p n (x ∷ pre) (last_in x pre) (fresh (x ∷ pre) n post r.distinct)) in
    let nx : (n == x) ≡ false = elem_ne n x (pre ++ n ∷ post) (elem-mid n pre post) r.distinct.0 in
    let nq : (n == q) ≡ false = q_ne n x post (behind pre n post r.distinct.1) nx in
    let xn : (x == n) ≡ false = ground (arith, nx) in
    let gap : ((n == q) && (n == p)) ≡ false = rw nq refl in
    let c = close_gap-Closes l x p n q np nq in
    (
      cut_off (close_gap l x n p q) n,
      pop_reads l x n p q r.head links.1 links.0 ∙ between-gap l x n p q gap,
      record {
        head = rw xn r.head;
        linked = cut l.item_at _ x pre n post x c r.linked r.distinct r.distinct.0;
        distinct = d;
      },
    )

-- `ft_list_pop` of a node that is in the list: it returns OK, and the list has the other nodes, in
-- the order that they had; the node behind the head becomes the head where the head is taken out,
-- and the list is empty where it was the only one.
pub pop-Holds :
    (l : FtList) (x : ℕ) (xs : List ℕ) (n : ℕ)
    → IsRing l x xs
    → elem n (x ∷ xs) ≡ true
    → (l' : FtList) × (ft_list_pop l (some n) ≡ some (ok, l')) × Holds l' (remove n (x ∷ xs))
pop-Holds l x xs n r e = elim (Bool-cases (x == n)) [
  | inl first ↦ rw (first, ← ==→eq x n first) (pop_head l x xs r)
  | inr later ↦
      let (pre, post, split, less) = mem-split n xs (rw later at e) in
      let d : Distinct (x ∷ remove n xs) =
        (elem-remove x n xs r.distinct.0, remove-Distinct n xs r.distinct.1) in
      rw (later, less) (pop_middle l x pre n post (rw split at r) (rw less at d))
]
