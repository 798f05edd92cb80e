-- ===== src/Connections/Opening.antt =====
-- The answer to the opening handshake, section 4.2.2 of RFC 6455.
use zappy.Prelude.{
  ℕ, zero, suc, ◌≤◌, ◌≡◌, refl, ap, ◌∙◌, if◌then◌else◌, true, List, [], ◌∷◌, ◌++◌, length, arith,
  drop-append, is_space, skip_spaces, AllSolid, skip_spaces-solid,
}
use zappy.Connections.{key_name, word, request_key}

word-whole :
    (n : ℕ) (key rest : List ℕ) (c : ℕ)
    → length key ≤ n
    → AllSolid key
    → is_space c ≡ true
    → word n (key ++ (c ∷ rest)) ≡ key
unfolding word
word-whole zero [] rest c small solid space = refl
word-whole zero (k ∷ ks) rest c small solid space = absurd (omega arith)
word-whole (suc n) [] rest c small solid space = ap (λ b. if b then [] else c ∷ word n rest) space
word-whole (suc n) (k ∷ ks) rest c small solid space =
    ap (λ b. if b then [] else k ∷ word n (ks ++ (c ∷ rest))) solid.0
    ∙ ap (λ l. k ∷ l) (word-whole n ks rest c (omega arith) solid.1 space)

-- The key is the word after the name of the header.
pub request_key-word :
    (k : ℕ) (ks rest : List ℕ) (c : ℕ)
    → length (k ∷ ks) ≤ 255
    → AllSolid (k ∷ ks)
    → is_space c ≡ true
    → request_key (key_name ++ (k ∷ ks ++ (c ∷ rest))) ≡ k ∷ ks
unfolding request_key
request_key-word k ks rest c small solid space =
    let text = k ∷ ks ++ (c ∷ rest) in
    ap (λ l. word 255 (skip_spaces l)) (drop-append key_name text)
    ∙ ap (word 255) (skip_spaces-solid k (ks ++ (c ∷ rest)) solid.0)
    ∙ word-whole 255 (k ∷ ks) rest c small solid space
