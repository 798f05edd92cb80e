-- ===== src/Config/Lines.antt =====
-- What a line of the file of settings does.
use zappy.Prelude.{
  ℕ, ◌≡◌, ◌≢◌, refl, sym, ap, ◌∙◌, ◌==◌, if◌then◌else◌, false, inl, inr, none, some, List, [], ◌∷◌,
  ◌++◌, arith, c_string, is_space, skip_spaces, AllSolid, AllSpace, NoNul, c_string-NoNul,
  skip_spaces-AllSpace, skip_spaces-solid, append-nil, Bool-cases,
}
use zappy.Config.{
  Config, field_names, find_field, trim_end, drop_spaces, trailing, cut_at_equals, cut_more,
}
use zappy.Config.Reading.{assign_named, assign_cut, parse_content, parse_line}

-- The characters of a key: no space, no '=', no NUL.
abbrev pub AllKey : List ℕ → Type 0
AllKey [] = Unit {0}
AllKey (c ∷ cs) = ((is_space c ≡ false) × ((c == b'=') ≡ false) × ((c == 0) ≡ false)) × AllKey cs

-- The characters of a value: no space and no NUL.
abbrev pub AllValue : List ℕ → Type 0
AllValue [] = Unit {0}
AllValue (c ∷ cs) = ((is_space c ≡ false) × ((c == 0) ≡ false)) × AllValue cs

NoNul-append : (xs ys : List ℕ) → NoNul xs → NoNul ys → NoNul (xs ++ ys)
NoNul-append [] ys p q = q
NoNul-append (x ∷ xs) ys p q = (p.0, NoNul-append xs ys p.1 q)

AllSpace-NoNul : (xs : List ℕ) → AllSpace xs → NoNul xs
AllSpace-NoNul [] h = tt
AllSpace-NoNul (x ∷ xs) h = (ground (arith, h.0), AllSpace-NoNul xs h.1)

AllKey-NoNul : (xs : List ℕ) → AllKey xs → NoNul xs
AllKey-NoNul [] h = tt
AllKey-NoNul (x ∷ xs) ((solid, other, nul), rest) = (nul, AllKey-NoNul xs rest)

AllValue-NoNul : (xs : List ℕ) → AllValue xs → NoNul xs
AllValue-NoNul [] h = tt
AllValue-NoNul (x ∷ xs) ((solid, nul), rest) = (nul, AllValue-NoNul xs rest)

AllKey-Solid : (xs : List ℕ) → AllKey xs → AllSolid xs
AllKey-Solid [] h = tt
AllKey-Solid (x ∷ xs) ((solid, other, nul), rest) = (solid, AllKey-Solid xs rest)

AllValue-Solid : (xs : List ℕ) → AllValue xs → AllSolid xs
AllValue-Solid [] h = tt
AllValue-Solid (x ∷ xs) ((solid, nul), rest) = (solid, AllValue-Solid xs rest)

drop_spaces-AllSpace : (xs : List ℕ) → AllSpace xs → drop_spaces xs ≡ []
unfolding drop_spaces trailing
drop_spaces-AllSpace [] h = refl
drop_spaces-AllSpace (x ∷ xs) h =
    ap (trailing x) (drop_spaces-AllSpace xs h.1) ∙ ap (λ b. if b then [] else x ∷ []) h.0

drop_spaces-solid : (xs ys : List ℕ) → AllSolid xs → AllSpace ys → drop_spaces (xs ++ ys) ≡ xs
unfolding drop_spaces trailing
drop_spaces-solid [] ys h s = drop_spaces-AllSpace ys s
drop_spaces-solid (x ∷ []) ys h s =
    ap (trailing x) (drop_spaces-AllSpace ys s) ∙ ap (λ b. if b then [] else x ∷ []) h.0
drop_spaces-solid (x ∷ y ∷ xs) ys h s = ap (trailing x) (drop_spaces-solid (y ∷ xs) ys h.1 s)

trim_end-solid :
    (x : ℕ) (xs ys : List ℕ) → AllSolid xs → AllSpace ys → trim_end (x ∷ xs ++ ys) ≡ x ∷ xs
unfolding trim_end
trim_end-solid x xs ys h s = ap (λ l. x ∷ l) (drop_spaces-solid xs ys h s)

-- The value of a line, with spaces around it.
value_trimmed :
    (before val behind : List ℕ)
    → AllSpace before
    → AllSolid val
    → AllSpace behind
    → trim_end (skip_spaces (before ++ (val ++ behind))) ≡ val
unfolding trim_end skip_spaces
value_trimmed before [] behind b v e =
    ap trim_end (skip_spaces-AllSpace before behind b)
    ∙ ap (λ l. trim_end (skip_spaces l)) (sym (append-nil behind))
    ∙ ap trim_end (skip_spaces-AllSpace behind [] e)
value_trimmed before (x ∷ xs) behind b v e =
    ap trim_end
      (skip_spaces-AllSpace before (x ∷ xs ++ behind) b ∙ skip_spaces-solid x (xs ++ behind) v.0)
    ∙ trim_end-solid x xs behind v.1 e

cut-spaces :
    (xs rest : List ℕ) → AllSpace xs → cut_at_equals (xs ++ (b'=' ∷ rest)) ≡ some (xs, rest)
unfolding cut_at_equals cut_more
cut-spaces [] rest h = refl
cut-spaces (x ∷ xs) rest h =
    let other : (x == b'=') ≡ false = ground (arith, h.0) in
    ap
      (λ b.
        if b
        then some ([], xs ++ (b'=' ∷ rest))
        else cut_more x (cut_at_equals (xs ++ (b'=' ∷ rest))))
      other
    ∙ ap (cut_more x) (cut-spaces xs rest h.1)

cut-key :
    (key xs rest : List ℕ)
    → AllKey key
    → AllSpace xs
    → cut_at_equals (key ++ (xs ++ (b'=' ∷ rest))) ≡ some (key ++ xs, rest)
unfolding cut_at_equals cut_more
cut-key [] xs rest k h = cut-spaces xs rest h
cut-key (c ∷ cs) xs rest ((solid, other, nul), k) h =
    ap
      (λ b.
        if b
        then some ([], cs ++ (xs ++ (b'=' ∷ rest)))
        else cut_more c (cut_at_equals (cs ++ (xs ++ (b'=' ∷ rest)))))
      other
    ∙ ap (cut_more c) (cut-key cs xs rest k h)

-- The lines that say nothing: only spaces, a comment, or no '='.
pub data Ignored : List ℕ → Type 0 where
  blank : {a : List ℕ} → AllSpace a → Ignored a
  comment : (a rest : List ℕ) → AllSpace a → Ignored (a ++ (b'#' ∷ rest))
  no_equals : {a : List ℕ} → cut_at_equals (skip_spaces (c_string a)) ≡ none → Ignored a

c_string-comment :
    (a rest : List ℕ) → AllSpace a → c_string (a ++ (b'#' ∷ rest)) ≡ a ++ (b'#' ∷ c_string rest)
unfolding c_string
c_string-comment [] rest h = refl
c_string-comment (x ∷ xs) rest h =
    let nul : (x == 0) ≡ false = ground (arith, h.0) in
    ap (λ b. if b then [] else x ∷ c_string (xs ++ (b'#' ∷ rest))) nul
    ∙ ap (λ l. x ∷ l) (c_string-comment xs rest h.1)

module _ (strtod : List ℕ → ℕ) (c : Config) where
  -- A line "key = value", with any spaces before and behind the key and the value, the end of the
  -- line among them, whose key has no space, no '=' and does not begin with '#', and whose value
  -- has no space: the field of that name gets the value, and nothing changes if no field has that
  -- name.
  pub parse_line-assigns :
      (a b d e val : List ℕ) (k : ℕ) (ks : List ℕ)
      → AllSpace a
      → AllSpace b
      → AllSpace d
      → AllSpace e
      → AllKey (k ∷ ks)
      → k ≢ b'#'
      → AllValue val
      → parse_line strtod c (a ++ ((k ∷ ks) ++ (b ++ (b'=' ∷ (d ++ (val ++ e))))))
        ≡ assign_named strtod c (find_field (k ∷ ks) field_names) val
  unfolding parse_line parse_content assign_cut
  parse_line-assigns a b d e val k ks ha hb hd he ((solid, other, nul), hk) differs hv =
      let value = d ++ (val ++ e) in
      let content = (k ∷ ks) ++ (b ++ (b'=' ∷ value)) in
      let clean : NoNul (a ++ content) = NoNul-append a content (AllSpace-NoNul a ha) (
        nul,
        NoNul-append ks (b ++ (b'=' ∷ value)) (AllKey-NoNul ks hk) (
            NoNul-append b (b'=' ∷ value) (AllSpace-NoNul b hb) (
              refl,
              NoNul-append d (val ++ e) (AllSpace-NoNul d hd)
                  (NoNul-append val e (AllValue-NoNul val hv) (AllSpace-NoNul e he)),
            )),
      ) in
      let no_comment : (k == b'#') ≡ false = ground arith in
      ap (λ l. parse_content strtod c (skip_spaces l)) (c_string-NoNul (a ++ content) clean)
      ∙ ap (parse_content strtod c) (
          skip_spaces-AllSpace a content ha
          ∙ skip_spaces-solid k (ks ++ (b ++ (b'=' ∷ value))) solid)
      ∙ ap (λ t. if t then c else assign_cut strtod c (cut_at_equals content)) no_comment
      ∙ ap (assign_cut strtod c) (cut-key (k ∷ ks) b value ((solid, other, nul), hk) hb)
      ∙ ap (λ q. assign_named strtod c (find_field q field_names) (trim_end (skip_spaces value)))
          (trim_end-solid k ks b (AllKey-Solid ks hk) hb)
      ∙ ap (assign_named strtod c (find_field (k ∷ ks) field_names))
          (value_trimmed d val e hd (AllValue-Solid val hv) he)

  content-no_equals : (l : List ℕ) → cut_at_equals l ≡ none → parse_content strtod c l ≡ c
  unfolding parse_content assign_cut
  content-no_equals [] e = refl
  content-no_equals (h ∷ t) e = elim (Bool-cases (h == b'#')) [
    | inl comment_ ↦ ap (λ b. if b then c else assign_cut strtod c (cut_at_equals (h ∷ t))) comment_
    | inr other ↦
        ap (λ b. if b then c else assign_cut strtod c (cut_at_equals (h ∷ t))) other
        ∙ ap (assign_cut strtod c) e
  ]

  -- A line of spaces, a comment and a line without '=' leave every setting as it is.
  pub parse_line-ignores : (line : List ℕ) → Ignored line → parse_line strtod c line ≡ c
  unfolding parse_line parse_content skip_spaces
  parse_line-ignores line (blank {a = a} space) =
      ap (λ l. parse_content strtod c (skip_spaces l))
        (c_string-NoNul line (AllSpace-NoNul line space))
      ∙ ap (λ l. parse_content strtod c (skip_spaces l)) (sym (append-nil line))
      ∙ ap (parse_content strtod c) (skip_spaces-AllSpace line [] space)
  parse_line-ignores line (comment a rest space) =
      ap (λ l. parse_content strtod c (skip_spaces l)) (c_string-comment a rest space)
      ∙ ap (parse_content strtod c) (skip_spaces-AllSpace a (b'#' ∷ c_string rest) space)
  parse_line-ignores line (no_equals e) = content-no_equals (skip_spaces (c_string line)) e
