-- ===== src/Config/Files.antt =====
-- What a whole file of settings does.
use zappy.Prelude.{
  ℕ, zero, suc, ◌≤◌, ◌<◌, ◌≡◌, ◌≢◌, refl, sym, ap, ◌∙◌, ◌==◌, if◌then◌else◌, false, some, List, [],
  ◌∷◌, ◌++◌, length, arith, append_assoc, success, length-append,
}
use zappy.Config.{Config, field_names, find_field}
use zappy.Config.Reading.{
  assign_named, parse_line, parse_lines, fgets, put_in_front, parse_config, init_config_content,
}
use zappy.Config.Lines.{AllKey, AllValue, parse_line-assigns}

-- A setting as it is written: a name, which is not empty, and a value.
pub record Entry : Type 0 where
  pub first : ℕ
  pub others : List ℕ
  pub val : List ℕ

abbrev pub name_of : Entry → List ℕ
name_of e = e.first ∷ e.others

abbrev pub text_of : Entry → List ℕ
text_of e = name_of e ++ (b'=' ∷ (e.val ++ (10 ∷ [])))

abbrev pub file_of : List Entry → List ℕ
file_of [] = []
file_of (e ∷ es) = text_of e ++ file_of es

-- The name and the value can stand in a line, and `fgets` has room for it.
pub record IsLine (e : Entry) : Type 0 where
  pub key : AllKey (name_of e)
  pub no_comment : e.first ≢ b'#'
  pub solid : AllValue e.val
  pub short : length (text_of e) ≤ 255

abbrev pub AllLines : List Entry → Type 0
AllLines [] = Unit {0}
AllLines (e ∷ es) = IsLine e × AllLines es

abbrev NoNewline : List ℕ → Type 0
NoNewline [] = Unit {0}
NoNewline (c ∷ cs) = ((c == 10) ≡ false) × NoNewline cs

NoNewline-append : (xs ys : List ℕ) → NoNewline xs → NoNewline ys → NoNewline (xs ++ ys)
NoNewline-append [] ys p q = q
NoNewline-append (x ∷ xs) ys p q = (p.0, NoNewline-append xs ys p.1 q)

key_NoNewline : (xs : List ℕ) → AllKey xs → NoNewline xs
key_NoNewline [] h = tt
key_NoNewline (x ∷ xs) ((solid, other, nul), rest) = (ground (arith, solid), key_NoNewline xs rest)

value_NoNewline : (xs : List ℕ) → AllValue xs → NoNewline xs
value_NoNewline [] h = tt
value_NoNewline (x ∷ xs) ((solid, nul), rest) = (ground (arith, solid), value_NoNewline xs rest)

fgets-line :
    (n : ℕ) (xs rest : List ℕ)
    → NoNewline xs
    → length xs < n
    → fgets n (xs ++ (10 ∷ rest)) ≡ (xs ++ (10 ∷ []), rest)
unfolding fgets
fgets-line zero xs rest h lt = absurd (omega arith)
fgets-line (suc n) [] rest h lt = refl
fgets-line (suc n) (x ∷ xs) rest h lt =
    ap
      (λ b. if b then (x ∷ [], xs ++ (10 ∷ rest)) else put_in_front x (fgets n (xs ++ (10 ∷ rest))))
      h.0
    ∙ ap (put_in_front x) (fgets-line n xs rest h.1 (omega arith))

module _ (strtod : List ℕ → ℕ) where
  -- The settings one after another.
  abbrev pub assign_all : Config → List Entry → Config
  assign_all c [] = c
  assign_all c (e ∷ es) =
      assign_all (assign_named strtod c (find_field (name_of e) field_names) e.val) es

  parse_line-text :
      (c : Config) (e : Entry)
      → IsLine e
      → parse_line strtod c (text_of e)
        ≡ assign_named strtod c (find_field (name_of e) field_names) e.val
  parse_line-text c e h =
      parse_line-assigns strtod c [] [] [] (10 ∷ []) e.val e.first e.others tt tt tt (refl, tt)
        h.key h.no_comment h.solid

  parse_lines-file :
      (es : List Entry) (fuel : ℕ) (c : Config)
      → AllLines es
      → length (file_of es) ≤ fuel
      → parse_lines strtod fuel c (file_of es) ≡ assign_all c es
  unfolding parse_lines
  parse_lines-file [] fuel c h le = refl
  parse_lines-file (e ∷ es) zero c h le = absurd (omega arith)
  parse_lines-file (e ∷ es) (suc fuel) c h le =
      let line = h.0 in
      let body = name_of e ++ (b'=' ∷ e.val) in
      let whole : text_of e ≡ body ++ (10 ∷ []) =
        sym (append_assoc (name_of e) (b'=' ∷ e.val) (10 ∷ [])) in
      let split : file_of (e ∷ es) ≡ body ++ (10 ∷ file_of es) =
        ap (λ l. l ++ file_of es) whole ∙ append_assoc body (10 ∷ []) (file_of es) in
      let clean : NoNewline body =
        NoNewline-append (name_of e) (b'=' ∷ e.val) (key_NoNewline (name_of e) line.key)
          (refl, value_NoNewline e.val line.solid) in
      let size = ap length whole ∙ length-append body (10 ∷ []) in
      let got : fgets 255 (file_of (e ∷ es)) ≡ (text_of e, file_of es) =
        ap (fgets 255) split
        ∙ fgets-line 255 body (file_of es) clean (omega (arith, line.short, size))
        ∙ ap (λ l. (l, file_of es)) (sym whole) in
      ap (λ q. parse_lines strtod fuel (parse_line strtod c q.0) q.1) got
      ∙ ap (λ d. parse_lines strtod fuel d (file_of es)) (parse_line-text c e line)
      ∙ parse_lines-file es fuel (assign_named strtod c (find_field (name_of e) field_names) e.val)
          h.1 (omega (arith, length-append (text_of e) (file_of es)))

  -- `parse_config` on a file of lines "name=value", each of which fits into its buffer, takes the
  -- settings in order, whatever the names are.
  pub parse_config-file :
      (es : List Entry)
      → AllLines es
      → parse_config strtod (some (file_of es)) ≡ (success, assign_all init_config_content es)
  unfolding parse_config
  parse_config-file es h =
      ap (λ c. (success, c))
        (parse_lines-file es (length (file_of es)) init_config_content h (omega arith))
