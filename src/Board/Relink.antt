-- ===== src/Board/Relink.antt =====
-- How the links of a list change where a player is taken out or put in front.
use zappy.Prelude.{
  ℕ, ◌≡◌, ◌≢◌, refl, inl, inr, true, false, ◌==◌, if◌then◌else◌, Option, none, some, List, [], ◌∷◌,
  arith, Bool-cases, ==_self, ==_ne, ==→eq, ap,
}
use zappy.Board.{add_player_to_tile, Board, Player, remove_player_from_tile}
use zappy.Board.Chain.{Chain, Distinct, SameLinks, elem, remove, Chain-frame, next_in, prev_in}
use zappy.Board.Unlink.{next-add, prev-add, points, next-remove, prev-remove}

-- No link of `first` leads into the list.
abbrev pub Outside : Option ℕ → List ℕ → Type 0
Outside none ps = Unit {0}
Outside (some r) ps = elem r ps ≡ false

-- The two lists have no player in common.
abbrev pub Apart : List ℕ → List ℕ → Type 0
Apart ps [] = Unit {0}
Apart ps (q ∷ qs) = (elem q ps ≡ false) × Apart ps qs

pub Outside-head :
    (l : Option ℕ) (q : ℕ) (qs : List ℕ) → Outside l (q ∷ qs) → (points l q ≡ false) × Outside l qs
Outside-head none q qs o = (refl, tt)
Outside-head (some r) q qs o = (ground arith, ground arith)

pub points_ne : (l : Option ℕ) (q : ℕ) → l ≢ some q → points l q ≡ false
points_ne none q h = refl
points_ne (some r) q h = ==_ne r q (λ e. h (ap some e))

pub head_prev :
    (mem : ℕ → Player) (prev first : Option ℕ) (ps : List ℕ) (p : ℕ)
    → Chain mem prev first ps
    → first ≡ some p
    → elem p ps ≡ true
    → (mem p).prev_on_tile ≡ prev
head_prev mem prev first [] p c f e = cc
head_prev mem prev first (q ∷ qs) p c f e = let eq : p ≡ q = cc in rw eq c.1

module _ (b : Board) (p : ℕ) where
  abbrev pub mem : ℕ → Player
  mem = b.player_at

  abbrev pub mem' : ℕ → Player
  mem' = (remove_player_from_tile b p).player_at

  module _ (n : (mem p).next_on_tile ≢ some p) (r : (mem p).prev_on_tile ≢ some p) where
    -- Players that `p` does not link to keep their links.
    pub SameLinks-remove :
        (qs : List ℕ)
        → elem p qs ≡ false
        → Outside (mem p).next_on_tile qs
        → Outside (mem p).prev_on_tile qs
        → SameLinks mem mem' qs
    SameLinks-remove [] h o u = tt
    SameLinks-remove (q ∷ qs) h o u =
        let (o₁, o₂) = Outside-head (mem p).next_on_tile q qs o in
        let (u₁, u₂) = Outside-head (mem p).prev_on_tile q qs u in
        let ne : (p == q) ≡ false = ground arith in
        (
          rw (next-remove b p q n r, ne, u₁),
          rw (prev-remove b p q n r, ne, o₁),
          SameLinks-remove qs (ground arith) o₂ u₂,
        )

    -- Where the list of `p` begins with it, the rest of the list takes its place.
    Chain-unlink_first :
        (qs : List ℕ)
        → Chain mem (some p) (mem p).next_on_tile qs
        → Distinct (p ∷ qs)
        → Outside (mem p).prev_on_tile qs
        → Chain mem' (mem p).prev_on_tile (mem p).next_on_tile qs
    Chain-unlink_first [] c d o = c
    Chain-unlink_first (s ∷ qs) c d o =
        let (o₁, o₂) = Outside-head (mem p).prev_on_tile s qs o in
        let ne : (p == s) ≡ false = ground arith in
        (
          c.0,
          rw (prev-remove b p s n r, ne, c.0, ==_self s),
          rw (next-remove b p s n r, ne, o₁)
              (Chain-frame mem mem' (some s) (mem s).next_on_tile qs
                (SameLinks-remove qs (ground arith) (rw c.0 d.1.0) o₂) c.2),
        )

    -- The link into a list that holds `p` is written exactly if `p` comes first there.
    relink :
        (q : ℕ) (qs : List ℕ)
        → Chain mem (some q) (mem q).next_on_tile qs
        → elem q qs ≡ false
        → elem p qs ≡ true
        → (if points (mem p).prev_on_tile q then (mem p).next_on_tile else (mem q).next_on_tile)
          ≡ (if points (mem q).next_on_tile p then (mem p).next_on_tile else (mem q).next_on_tile)
    relink q qs c o e = elim (prev_in mem (some q) (mem q).next_on_tile qs p c e) [
      | inl (f, pr) ↦ rw (f, pr, ==_self q, ==_self p)
      | inr (s, pr, m) ↦
          let apart : s ≢ q = λ h. cc (ap (λ k. elem k qs) h) in
          let no_link : (mem q).next_on_tile ≢ some p =
            λ h. apart (cc (head_prev mem (some q) (mem q).next_on_tile qs p c h e)) in
          rw (pr, ==_ne s q apart, points_ne (mem q).next_on_tile p no_link)
    ]

    -- Taking `p` out of a list that it stands in.
    pub Chain-unlink :
        (prev first : Option ℕ) (qs : List ℕ)
        → Chain mem prev first qs
        → Distinct qs
        → Outside prev qs
        → elem p qs ≡ true
        → Chain mem' prev (if points first p then (mem p).next_on_tile else first) (remove p qs)
    Chain-unlink prev first [] c d o e = cc
    Chain-unlink prev first (q ∷ qs) c d o e = elim (Bool-cases (q == p)) [
      | inl here ↦
          let eq : q ≡ p = ==→eq q p here in
          let pv : (mem p).prev_on_tile ≡ prev = ground arith in
          rw (c.0, here)
            (rw (← pv) (
              Chain-unlink_first qs (rw eq at c.2) (rw eq at d)
                (rw pv (Outside-head prev q qs o).1)))
      | inr there ↦
          let e' : elem p qs ≡ true = ground arith in
          let no_next : (mem p).next_on_tile ≢ some q =
            λ h. cc (next_in mem (some q) (mem q).next_on_tile qs p q c.2 e' h) in
          rw (c.0, there)
            (
              refl,
              rw
                  (
                    prev-remove b p q n r,
                    ==_ne p q (λ h. ground arith),
                    points_ne (mem p).next_on_tile q no_next,
                  )
                  c.1,
              rw (next-remove b p q n r, ==_ne p q (λ h. ground arith), relink q qs c.2 d.0 e')
                  (Chain-unlink (some q) (mem q).next_on_tile qs c.2 d.1 d.0 e'),
            )
    ]

-- A new player in front of a list: the old first player links back to it.
module _ (b : Board) (i p : ℕ) (n : (b.tile_at i).players ≢ some p) where
  SameLinks-add :
      (qs : List ℕ)
      → elem p qs ≡ false
      → Outside (b.tile_at i).players qs
      → SameLinks b.player_at (add_player_to_tile b i p).player_at qs
  SameLinks-add [] h o = tt
  SameLinks-add (q ∷ qs) h o =
      let (o₁, o₂) = Outside-head (b.tile_at i).players q qs o in
      let ne : (p == q) ≡ false = ground arith in
      (
        rw (next-add b i p q n, ne),
        rw (prev-add b i p q n, ne, o₁),
        SameLinks-add qs (ground arith) o₂,
      )

  pub Chain-link_first :
      (qs : List ℕ)
      → elem p qs ≡ false
      → Distinct qs
      → Chain b.player_at none (b.tile_at i).players qs
      → Chain (add_player_to_tile b i p).player_at (some p) (b.tile_at i).players qs
  Chain-link_first [] h d c = c
  Chain-link_first (q ∷ qs) h d c =
      let ne : (p == q) ≡ false = ground arith in
      (
        c.0,
        rw (prev-add b i p q n, ne, c.0, ==_self q),
        rw (next-add b i p q n, ne)
            (Chain-frame b.player_at (add_player_to_tile b i p).player_at (some q)
              (b.player_at q).next_on_tile qs (SameLinks-add qs (ground arith) (rw c.0 d.0)) c.2),
      )

  -- On another tile nothing changes.
  pub Chain-add_elsewhere :
      (first : Option ℕ) (qs : List ℕ)
      → elem p qs ≡ false
      → Outside (b.tile_at i).players qs
      → Chain b.player_at none first qs
      → Chain (add_player_to_tile b i p).player_at none first qs
  Chain-add_elsewhere first qs h o c =
      Chain-frame b.player_at (add_player_to_tile b i p).player_at none first qs
        (SameLinks-add qs h o) c
