-- ===== src/FtList/Pop.antt =====
-- `ft_list_pop` takes a node out of the list.
pub mod Out
use zappy.Prelude.{
  ℕ, suc, ◌+◌, ◌≡◌, refl, ap, sym, ◌∙◌, ◌⊎◌, inl, inr, true, false, ◌&&◌, ◌==◌, if◌then◌else◌, none,
  some, List, [], ◌∷◌, ◌++◌, arith, ==_self, ==_ne, ==→eq, Bool-cases,
}
use zappy.Board.Chain.{elem, Distinct, remove}
use zappy.FtList.{ListItem, FtList, ok, close_gap, cut_off, pop_between, ft_list_pop}
use zappy.FtList.Ring.{Linked, IsRing}
use zappy.FtList.Append.{last_of, prev-last, last_in, elem_ne}

-- What the writes of `ft_list_pop` to a node `n` between `p` and `q` do to the links.
pub record Closes (mem mem' : ℕ → ListItem) (p n q : ℕ) : Type 0 where
  next_p : (mem' p).next ≡ some q
  prev_q : (mem' q).prev ≡ some p
  nexts : (r : ℕ) → (p == r) ≡ false → (n == r) ≡ false → (mem' r).next ≡ (mem r).next
  prevs : (r : ℕ) → (q == r) ≡ false → (n == r) ≡ false → (mem' r).prev ≡ (mem r).prev

pub close_gap-Closes :
    (l : FtList) (h p n q : ℕ)
    → (n == p) ≡ false
    → (n == q) ≡ false
    → Closes l.item_at (cut_off (close_gap l h n p q) n).item_at p n q
close_gap-Closes l h p n q np nq = elim (Bool-cases (h == n)) [
  | inl first ↦ rw first (record {
    next_p = ground arith;
    prev_q = ground arith;
    nexts = λ r e f. ground arith;
    prevs = λ r e f. ground arith;
  })
  | inr later ↦ rw later (record {
    next_p = ground arith;
    prev_q = ground arith;
    nexts = λ r e f. ground arith;
    prevs = λ r e f. ground arith;
  })
]

-- A part of the list that neither end of the gap belongs to.
keep :
    (mem mem' : ℕ → ListItem) (p n q a : ℕ) (ys : List ℕ) (b : ℕ)
    → Closes mem mem' p n q
    → Linked mem a ys b
    → elem p (a ∷ ys) ≡ false
    → elem n (a ∷ ys) ≡ false
    → elem q ys ≡ false
    → (q == b) ≡ false
    → (n == b) ≡ false
    → Linked mem' a ys b
keep mem mem' p n q a [] b c k ep en eq qb nb =
    (c.nexts a (ground arith) (ground arith) ∙ k.0, c.prevs b qb nb ∙ k.1)
keep mem mem' p n q a (y ∷ ys) b c k ep en eq qb nb = (
  c.nexts a (ground arith) (ground arith) ∙ k.0,
  c.prevs y (ground arith) (ground arith) ∙ k.1,
  keep mem mem' p n q y ys b c k.2 (ground arith) (ground arith) (ground arith) qb nb,
)

-- The node behind the gap: the first of `ys`, or the head.
abbrev pub first_of : List ℕ → ℕ → ℕ
first_of [] b = b
first_of (y ∷ ys) b = y

pub elem-mid : (n : ℕ) (pre post : List ℕ) → elem n (pre ++ n ∷ post) ≡ true
elem-mid n [] post = ground (arith, ==_self n)
elem-mid n (a ∷ pre) post = ground (arith, elem-mid n pre post)

elem-after : (z n : ℕ) (pre zs : List ℕ) → elem z (pre ++ n ∷ z ∷ zs) ≡ true
elem-after z n [] zs = ground (arith, ==_self z)
elem-after z n (a ∷ pre) zs = ground (arith, elem-after z n pre zs)

last_in-append : (a : ℕ) (ys zs : List ℕ) → elem (last_of a ys) (a ∷ ys ++ zs) ≡ true
last_in-append a [] zs = ground (arith, ==_self a)
last_in-append a (y ∷ ys) zs = ground (arith, last_in-append y ys zs)

first_ne :
    (y n b : ℕ) (pre post : List ℕ)
    → elem y (pre ++ n ∷ post) ≡ false
    → (y == b) ≡ false
    → (first_of post b == y) ≡ false
first_ne y n b pre [] e f = ground arith
first_ne y n b pre (z ∷ zs) e f = elem_ne z y (pre ++ n ∷ z ∷ zs) (elem-after z n pre zs) e

-- Taking out a node in the middle joins what is before it to what is behind it.
pub cut :
    (mem mem' : ℕ → ListItem) (a : ℕ) (pre : List ℕ) (n : ℕ) (post : List ℕ) (b : ℕ)
    → Closes mem mem' (last_of a pre) n (first_of post b)
    → Linked mem a (pre ++ n ∷ post) b
    → Distinct (a ∷ pre ++ n ∷ post)
    → elem b (pre ++ n ∷ post) ≡ false
    → Linked mem' a (pre ++ post) b
cut mem mem' a [] n [] b c k d e = (c.next_p, c.prev_q)
cut mem mem' a [] n (y ∷ ys) b c k d e = (
  c.next_p,
  c.prev_q,
  keep mem mem' a n y y ys b c k.2.2 (ground arith) d.1.0 d.1.1.0 (ground arith) (ground arith),
)
cut mem mem' a (y ∷ pre) n post b c k d e =
    let more = y ∷ pre ++ n ∷ post in
    (
      c.nexts a (elem_ne (last_of y pre) a more (last_in-append y pre (n ∷ post)) d.0)
            (elem_ne n a more (elem-mid n (y ∷ pre) post) d.0)
          ∙ k.0,
      c.prevs y (first_ne y n b pre post d.1.0 (ground arith))
            (elem_ne n y (pre ++ n ∷ post) (elem-mid n pre post) d.1.0)
          ∙ k.1,
      cut mem mem' y pre n post b c k.2 d.1 (ground arith),
    )

-- Taking out the head makes the list end in the node behind it.
pub turn :
    (mem mem' : ℕ → ListItem) (a : ℕ) (ys : List ℕ) (b n h : ℕ)
    → Closes mem mem' (last_of a ys) n h
    → Linked mem a ys b
    → Distinct (a ∷ ys)
    → elem h ys ≡ false
    → elem n (a ∷ ys) ≡ false
    → Linked mem' a ys h
turn mem mem' a [] b n h c k d eh en = (c.next_p, c.prev_q)
turn mem mem' a (z ∷ zs) b n h c k d eh en = (
  c.nexts a (elem_ne (last_of z zs) a (z ∷ zs) (last_in z zs) d.0) (ground arith) ∙ k.0,
  c.prevs z (ground arith) (ground arith) ∙ k.1,
  turn mem mem' z zs b n h c k.2 d.1 (ground arith) (ground arith),
)
