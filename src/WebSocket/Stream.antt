-- ===== src/WebSocket/Stream.antt =====
-- What `ws_read` relies on in OpenSSL: a session delivers the data that the peer has sent record
-- by record, and takes what is written. The loops and the reads of ssl_al.c on such a session.
use zappy.Prelude.{
  ℕ, zero, suc, ◌-◌, ◌≤◌, ◌^◌, ◌<◌, ◌≡◌, refl, ap, ◌∙◌, leb, if◌then◌else◌, true, none, some, List,
  [], ◌∷◌, ◌++◌, length, take, drop, arith, take-append, drop-append, length-append, take-all,
  append-nil, append_assoc, le→leb, lt→leb, ==_self,
}
use zappy.Prelude.Int.{pos}
use zappy.WebSocket.{Ssl, read_loop, read_more, read_once, exactly}

-- The records that are left when n bytes of the first one have been taken.
abbrev pub after : ℕ → List ℕ → List (List ℕ) → List (List ℕ)
after n bytes rest = if leb (length bytes) n then rest else drop n bytes ∷ rest

-- `incoming w ssl` are the records that wait on a session, `sent w ssl` the bytes that were
-- written to it. `SSL_read` gives bytes of the first record, as many as there is room for;
-- `SSL_write` takes
-- all bytes, of which there are as many as an `int` can count.
pub record Delivers {W : Type 0} (net : Ssl W) : Type 0 where
  pub incoming : W → ℕ → List (List ℕ)
  pub sent : W → ℕ → List ℕ
  pub read :
      (w : W) (ssl n b : ℕ) (bs : List ℕ) (rest : List (List ℕ))
      → 0 < n
      → incoming w ssl ≡ (b ∷ bs) ∷ rest
      → let (got, w') = net.ssl_read w ssl n in
        (got ≡ some (take n (b ∷ bs)))
        × (incoming w' ssl ≡ after n (b ∷ bs) rest)
        × (sent w' ssl ≡ sent w ssl)
  pub write :
      (w : W) (ssl : ℕ) (bytes : List ℕ)
      → length bytes < 2 ^ 31
      → let (value, w') = net.ssl_write w ssl bytes in
        (value ≡ pos (length bytes))
        × (incoming w' ssl ≡ incoming w ssl)
        × (sent w' ssl ≡ sent w ssl ++ bytes)

-- Records have a byte at least, so a record of which nothing is left is gone.
abbrev pub front : List ℕ → List (List ℕ) → List (List ℕ)
front [] rest = rest
front (b ∷ bs) rest = (b ∷ bs) ∷ rest

abbrev pub joined : List (List ℕ) → List ℕ
joined [] = []
joined (p ∷ ps) = p ++ joined ps

-- Records that are read up to their ends.
abbrev pub AllFull : List (List ℕ) → Type 0
AllFull [] = Unit {0}
AllFull (p ∷ ps) = (0 < length p) × AllFull ps

after_part :
    (xs ys : List ℕ) (rest : List (List ℕ)) → after (length xs) (xs ++ ys) rest ≡ front ys rest
after_part xs [] rest = rw (append-nil xs, le→leb (length xs) (length xs) (omega arith)) refl
after_part xs (y ∷ ys) rest =
    let longer : length xs < length (xs ++ (y ∷ ys)) = omega (arith, length-append xs (y ∷ ys)) in
    rw (lt→leb (length (xs ++ (y ∷ ys))) (length xs) longer, drop-append xs (y ∷ ys)) refl

module _ {W : Type 0} (net : Ssl W) (d : Delivers net) where
  -- A read of as many bytes as a part of the first record has.
  read_part :
      (w : W) (ssl b : ℕ) (xs ys : List ℕ) (rest : List (List ℕ))
      → d.incoming w ssl ≡ (b ∷ xs ++ ys) ∷ rest
      → (w' : W) × (net.ssl_read w ssl (length (b ∷ xs)) ≡ (some (b ∷ xs), w'))
        × (d.incoming w' ssl ≡ front ys rest)
        × (d.sent w' ssl ≡ d.sent w ssl)
  read_part w ssl b xs ys rest e =
      let (got, left, same) = d.read w ssl (length (b ∷ xs)) b (xs ++ ys) rest (omega arith) e in
      let w' = (net.ssl_read w ssl (length (b ∷ xs))).1 in
      (
        w',
        ap (λ g. (g, w')) (got ∙ ap some (take-append (b ∷ xs) ys)),
        left ∙ after_part (b ∷ xs) ys rest,
        same,
      )

  -- A read with room for the first record and more.
  read_record :
      (w : W) (ssl n b : ℕ) (bs : List ℕ) (rest : List (List ℕ))
      → length (b ∷ bs) ≤ n
      → d.incoming w ssl ≡ (b ∷ bs) ∷ rest
      → (w' : W) × (net.ssl_read w ssl n ≡ (some (b ∷ bs), w'))
        × (d.incoming w' ssl ≡ rest)
        × (d.sent w' ssl ≡ d.sent w ssl)
  read_record w ssl n b bs rest h e =
      let (got, left, same) = d.read w ssl n b bs rest (omega arith) e in
      let w' = (net.ssl_read w ssl n).1 in
      (
        w',
        ap (λ g. (g, w')) (got ∙ ap some (take-all n (b ∷ bs) h)),
        left ∙ ap (λ t. if t then rest else drop n (b ∷ bs) ∷ rest) (le→leb (length (b ∷ bs)) n h),
        same,
      )

  pub read_once-part :
      (w : W) (ssl b : ℕ) (xs ys : List ℕ) (rest : List (List ℕ))
      → d.incoming w ssl ≡ (b ∷ xs ++ ys) ∷ rest
      → (w' : W) × (read_once net w ssl (length (b ∷ xs)) ≡ (some (b ∷ xs), w'))
        × (d.incoming w' ssl ≡ front ys rest)
        × (d.sent w' ssl ≡ d.sent w ssl)
  unfolding read_once exactly
  read_once-part w ssl b xs ys rest e =
      let (w', got, left, same) = read_part w ssl b xs ys rest e in
      (
        w',
        ap (exactly net (length (b ∷ xs))) got
            ∙ ap (λ t. if t then (some (b ∷ xs), w') else (none, w')) (==_self (length (b ∷ xs))),
        left,
        same,
      )

  -- One round of a reading loop that gets a record or a part of one.
  read_loop-round :
      (fuel ssl m : ℕ) (w w' : W) (b : ℕ) (bs : List ℕ)
      → net.ssl_read w ssl (suc m) ≡ (some (b ∷ bs), w')
      → let ((whole, rest), w'') = read_loop net fuel ssl (suc m - length (b ∷ bs)) w' in
        read_loop net (suc fuel) ssl (suc m) w ≡ ((whole, (b ∷ bs) ++ rest), w'')
  unfolding read_loop read_more
  read_loop-round fuel ssl m w w' b bs e =
      ap (read_more net (λ missing v. read_loop net fuel ssl missing v) (suc m)) e

  -- The loop over bytes that end inside a record.
  read_loop-last :
      (fuel ssl : ℕ) (w : W) (xs ys : List ℕ) (rest : List (List ℕ))
      → length xs ≤ fuel
      → d.incoming w ssl ≡ front (xs ++ ys) rest
      → (w' : W) × (read_loop net fuel ssl (length xs) w ≡ ((true, xs), w'))
        × (d.incoming w' ssl ≡ front ys rest)
        × (d.sent w' ssl ≡ d.sent w ssl)
  unfolding read_loop
  read_loop-last fuel ssl w [] ys rest h e = (w, refl, e, refl)
  read_loop-last zero ssl w (x ∷ xs) ys rest h e = absurd (omega arith)
  read_loop-last (suc fuel) ssl w (x ∷ xs) ys rest h e =
      let (w', got, left, same) = read_part w ssl x xs ys rest e in
      let none_left : suc (length xs) - length (x ∷ xs) ≡ 0 = omega arith in
      (
        w',
        read_loop-round fuel ssl (length xs) w w' x xs got
            ∙ ap
                (λ k.
                  let ((whole, more), w'') = read_loop net fuel ssl k w' in
                  ((whole, (x ∷ xs) ++ more), w''))
                none_left
            ∙ ap (λ l. ((true, l), w')) (append-nil (x ∷ xs)),
        left,
        same,
      )

  -- The loop over bytes that come in several records: in all of `pieces`, and `xs` in the record
  -- after them. It gets the bytes, whatever the pieces are, and leaves what follows.
  pub read_loop-pieces :
      (fuel ssl : ℕ) (w : W) (pieces : List (List ℕ)) (xs ys : List ℕ) (rest : List (List ℕ))
      → AllFull pieces
      → length (joined pieces ++ xs) ≤ fuel
      → d.incoming w ssl ≡ pieces ++ front (xs ++ ys) rest
      → (w' : W) × (read_loop net fuel ssl (length (joined pieces ++ xs)) w
          ≡ ((true, joined pieces ++ xs), w'))
        × (d.incoming w' ssl ≡ front ys rest)
        × (d.sent w' ssl ≡ d.sent w ssl)
  read_loop-pieces fuel ssl w [] xs ys rest full h e = read_loop-last fuel ssl w xs ys rest h e
  read_loop-pieces fuel ssl w ([] ∷ pieces) xs ys rest full h e = absurd (omega (arith, full.0))
  read_loop-pieces zero ssl w ((b ∷ bs) ∷ pieces) xs ys rest full h e = absurd (omega arith)
  read_loop-pieces (suc fuel) ssl w ((b ∷ bs) ∷ pieces) xs ys rest full h e =
      let more = joined pieces ++ xs in
      let whole : (bs ++ joined pieces) ++ xs ≡ bs ++ more = append_assoc bs (joined pieces) xs in
      let size = length-append bs more in
      let m = length (bs ++ more) in
      let (w1, got, left, same) =
        read_record w ssl (suc m) b bs (pieces ++ front (xs ++ ys) rest) (omega (arith, size)) e in
      let small : length more ≤ fuel = omega (arith, ap length whole, size, h) in
      let (w2, got2, left2, same2) =
        read_loop-pieces fuel ssl w1 pieces xs ys rest full.1 small left in
      let missing : suc m - length (b ∷ bs) ≡ length more = omega (arith, size) in
      rw whole (
        w2,
        read_loop-round fuel ssl m w w1 b bs got
            ∙ ap
                (λ k.
                  let ((done, l), v) = read_loop net fuel ssl k w1 in ((done, (b ∷ bs) ++ l), v))
                missing
            ∙ ap (λ q. let ((done, l), v) = q in ((done, (b ∷ bs) ++ l), v)) got2,
        left2,
        same2 ∙ same,
      )
