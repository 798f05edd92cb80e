-- ===== src/WebSocket/Receiving.antt =====
-- The text frames that a client sends, as section 5 of RFC 6455 has them, against `ws_read`.
use Prim.Native.Nat.{bit_and, bit_or, bit_xor}
use zappy.Prelude.{
  ℕ, zero, suc, ◌+◌, ◌*◌, ◌/◌, ◌%◌, ◌^◌, ◌≤◌, ◌<◌, ◌≡◌, refl, sym, ap, ◌∙◌, ltb, if◌then◌else◌,
  true, ◌⊎◌, inl, inr, none, some, List, [], ◌∷◌, ◌++◌, length, get_or, drop, arith, append_assoc,
  Bool-cases, ltb→lt, le→ltb, ==_ne,
}
use zappy.Prelude.Bits.{low_nibble, low_seven, or_byte, xor_twice}
use zappy.SslTable.{SslTable, ssl_table_get}
use zappy.WebSocket.{
  Ssl, Received, unmask, to_int, long_length, read_loop, read_once, take_payload, finish, take_body,
  take_length, text_frame, dispatch_frame, after_header, ws_read, refused,
}
use zappy.WebSocket.Stream.{Delivers, AllFull, joined, front, read_once-part, read_loop-pieces}

-- The lowest k bytes of a number, highest first, before some bytes.
abbrev pub network_order : ℕ → ℕ → List ℕ → List ℕ
network_order zero n bytes = bytes
network_order (suc k) n bytes = network_order k (n / 256) (n % 256 ∷ bytes)

-- The seven bits of the second byte, and the length field that they announce.
abbrev pub length_code : ℕ → ℕ
length_code n = if ltb n 126 then n else if ltb n (2 ^ 16) then 126 else 127

abbrev pub length_field : ℕ → List ℕ
length_field n =
    if ltb n 126 then [] else if ltb n (2 ^ 16) then network_order 2 n [] else network_order 8 n []

-- Byte i of the payload is masked with byte i % 4 of the mask.
abbrev pub masked : List ℕ → ℕ → List ℕ → List ℕ
masked mask i [] = []
masked mask i (b ∷ bs) = bit_xor b (get_or mask (i % 4) 0) ∷ masked mask (suc i) bs

-- A mask is four bytes.
abbrev pub mask_bytes : ℕ → ℕ → ℕ → ℕ → List ℕ
mask_bytes a b c e = a ∷ b ∷ c ∷ e ∷ []

-- The part of a frame before its payload. `first` has the opcode in its low four bits, `flag` is
-- the bit that says that there is a mask.
abbrev pub client_header : ℕ → ℕ → List ℕ → ℕ → List ℕ
client_header first flag mask n = first ∷ (128 * flag + length_code n) ∷ (length_field n ++ mask)

unmask-masked :
    (mask : List ℕ) (i : ℕ) (bytes : List ℕ) → unmask mask i (masked mask i bytes) ≡ bytes
unfolding unmask
unmask-masked mask i [] = refl
unmask-masked mask i (b ∷ bs) =
    cc (xor_twice b (get_or mask (i % 4) 0), unmask-masked mask (suc i) bs)

pub length-masked :
    (mask : List ℕ) (i : ℕ) (bytes : List ℕ) → length (masked mask i bytes) ≡ length bytes
length-masked mask i [] = refl
length-masked mask i (b ∷ bs) = ap suc (length-masked mask (suc i) bs)

long_length-network_order :
    (k n : ℕ) (bytes : List ℕ)
    → n < 256 ^ k
    → n < 2 ^ 64
    → long_length 0 (network_order k n bytes) ≡ long_length n bytes
unfolding long_length
long_length-network_order zero n bytes h small = ap (λ q. long_length q bytes) (omega arith)
long_length-network_order (suc k) n bytes h small =
    let shifted : n / 256 * 2 ^ 8 % 2 ^ 64 ≡ 256 * (n / 256) = omega arith in
    let digit : bit_or (n / 256 * 2 ^ 8 % 2 ^ 64) (n % 256) ≡ n =
      ap (λ q. bit_or q (n % 256)) shifted
      ∙ or_byte (n / 256) (n % 256) (omega arith)
      ∙ (omega arith) in
    let above : n / 256 < 256 ^ k = omega arith in
    long_length-network_order k (n / 256) (n % 256 ∷ bytes) above (omega arith)
    ∙ ap (λ q. long_length q bytes) digit

-- What a client sends after the header of a frame: the rest `p` of the record that has the header
-- and the records `more`. It is the masked payload, cut into records in any way, and then `ys` in
-- the same record as the end of the payload and the records `rest`.
pub record Body (mask payload p : List ℕ) (more : List (List ℕ)) : Type 0 where
  pub pieces : List (List ℕ)
  pub last : List ℕ
  pub ys : List ℕ
  pub rest : List (List ℕ)
  pub full : AllFull pieces
  pub bytes : joined pieces ++ last ≡ masked mask 0 payload
  pub cut : front p more ≡ pieces ++ front (last ++ ys) rest

module _ {W : Type 0} (net : Ssl W) (d : Delivers net) (ssl : ℕ) where
  -- The payload is in the buffer, all of it has been taken off the session, and nothing was sent.
  abbrev pub Gets : W → List ℕ → List (List ℕ) → Received W → Type 0
  Gets w payload left r =
      (r.value ≡ to_int (length payload))
      × (r.stored ≡ payload)
      × (d.incoming r.sessions ssl ≡ left)
      × (d.sent r.sessions ssl ≡ d.sent w ssl)

  module _ (a b c e : ℕ) (payload p : List ℕ) (more : List (List ℕ))
      (body : Body (mask_bytes a b c e) payload p more) where
    abbrev mask : List ℕ
    mask = mask_bytes a b c e

    abbrev leftover : List (List ℕ)
    leftover = front body.ys body.rest

    take_payload-Gets :
        (w : W)
        → d.incoming w ssl ≡ front p more
        → Gets w payload leftover (take_payload net ssl (length payload) (some mask, w))
    unfolding take_payload finish
    take_payload-Gets w incoming =
        let size : length (joined body.pieces ++ body.last) ≡ length payload =
          ap length body.bytes ∙ length-masked mask 0 payload in
        let (w', got, left, same) =
          read_loop-pieces net d (length (joined body.pieces ++ body.last)) ssl w body.pieces
            body.last body.ys body.rest body.full (omega arith) (incoming ∙ body.cut) in
        let whole : read_loop net (length payload) ssl (length payload) w
            ≡ ((true, masked mask 0 payload), w') =
          ap (λ k. read_loop net k ssl k w) (sym size)
          ∙ got
          ∙ ap (λ l. ((true, l), w')) body.bytes in
        rw whole (refl, unmask-masked mask 0 payload, left, same)

    take_body-Gets :
        (w : W) (bufsize : ℕ)
        → length payload ≤ bufsize
        → d.incoming w ssl ≡ (mask ++ p) ∷ more
        → Gets w payload leftover (take_body net bufsize ssl (length payload) w)
    unfolding take_body
    take_body-Gets w bufsize fits incoming =
        let (w', got, left, same) = read_once-part net d w ssl a (b ∷ c ∷ e ∷ []) p more incoming in
        let (value, stored, after, quiet) = take_payload-Gets w' left in
        rw (le→ltb bufsize (length payload) fits, got) (value, stored, after, quiet ∙ same)

    length_class :
        (n : ℕ)
        → ((n < 126) × (length_code n ≡ n) × (length_field n ≡ []))
          ⊎ ((n < 2 ^ 16) × (length_code n ≡ 126) × (length_field n ≡ network_order 2 n []))
          ⊎ ((length_code n ≡ 127) × (length_field n ≡ network_order 8 n []))
    length_class n = elim (Bool-cases (ltb n 126)) [
      | inl short ↦ inl (ltb→lt n 126 short, rw short refl, rw short refl)
      | inr long ↦ elim (Bool-cases (ltb n (2 ^ 16))) [
        | inl medium ↦
            inr (inl (ltb→lt n (2 ^ 16) medium, rw (long, medium) refl, rw (long, medium) refl))
        | inr huge ↦ inr (inr (rw (long, huge) refl, rw (long, huge) refl))
      ]
    ]

    length_code-small : (n : ℕ) → length_code n < 128
    length_code-small n = ground arith

    -- The length field in 2 or 8 bytes, and what follows.
    take_length-Gets :
        (w : W) (bufsize x : ℕ) (xs : List ℕ)
        → length payload ≤ bufsize
        → long_length 0 (x ∷ xs) ≡ length payload
        → d.incoming w ssl ≡ (x ∷ xs ++ (mask ++ p)) ∷ more
        → Gets w payload leftover
            (take_length net bufsize ssl (read_once net w ssl (length (x ∷ xs))))
    unfolding take_length
    take_length-Gets w bufsize x xs fits size incoming =
        let (w', got, left, same) = read_once-part net d w ssl x xs (mask ++ p) more incoming in
        let (value, stored, after, quiet) = take_body-Gets w' bufsize fits left in
        rw (got, size) (value, stored, after, quiet ∙ same)

    text_frame-Gets :
        (w : W) (bufsize : ℕ)
        → length payload ≤ bufsize
        → length payload < 2 ^ 64
        → d.incoming w ssl ≡ front (length_field (length payload) ++ (mask ++ p)) more
        → Gets w payload leftover (text_frame net bufsize ssl (length_code (length payload)) w)
    unfolding text_frame
    text_frame-Gets w bufsize fits small incoming =
        let n = length payload in
        elim (length_class n) [
          | inl (short, code, field) ↦
              rw (code, ==_ne n 126 (λ q. omega arith), ==_ne n 127 (λ q. omega arith))
                (take_body-Gets w bufsize fits
                  (incoming ∙ ap (λ f. front (f ++ (mask ++ p)) more) field))
          | inr (inl (medium, code, field)) ↦ rw code (
              take_length-Gets w bufsize (n / 256 % 256) (n % 256 ∷ []) fits
                (long_length-network_order 2 n [] medium small)
                (incoming ∙ ap (λ f. front (f ++ (mask ++ p)) more) field))
          | inr (inr (code, field)) ↦ rw code (
              take_length-Gets w bufsize (get_or (network_order 8 n []) 0 0)
                (drop 1 (network_order 8 n [])) fits (long_length-network_order 8 n [] small small)
                (incoming ∙ ap (λ f. front (f ++ (mask ++ p)) more) field))
        ]

    dispatch_frame-Gets :
        (w : W) (bufsize first flag : ℕ)
        → first % 16 ≡ 1
        → length payload ≤ bufsize
        → length payload < 2 ^ 64
        → d.incoming w ssl ≡ front (length_field (length payload) ++ (mask ++ p)) more
        → Gets w payload leftover (
            dispatch_frame net bufsize ssl
              (bit_and first 0x0F)
              (bit_and (128 * flag + length_code (length payload)) 0x7F)
              w)
    unfolding dispatch_frame
    dispatch_frame-Gets w bufsize first flag text fits small incoming =
        let opcode : bit_and first 0x0F ≡ 1 = low_nibble first ∙ text in
        let bits : bit_and (128 * flag + length_code (length payload)) 0x7F
            ≡ length_code (length payload) =
          low_seven (128 * flag + length_code (length payload))
          ∙ omega (arith, length_code-small (length payload)) in
        rw (opcode, bits) (text_frame-Gets w bufsize fits small incoming)

    pub ws_read-payload :
        (t : SslTable) (w : W) (fd bufsize first flag : ℕ)
        → ssl_table_get t fd ≡ some ssl
        → first % 16 ≡ 1
        → length payload ≤ bufsize
        → length payload < 2 ^ 64
        → d.incoming w ssl ≡ (client_header first flag mask (length payload) ++ p) ∷ more
        → Gets w payload leftover (ws_read net t w fd bufsize)
    unfolding ws_read after_header
    ws_read-payload t w fd bufsize first flag found text fits small incoming =
        let second = 128 * flag + length_code (length payload) in
        let whole =
          ap (λ l. (first ∷ second ∷ l) ∷ more)
            (append_assoc (length_field (length payload)) mask p) in
        let (w', got, left, same) =
          read_loop-pieces net d 2 ssl w [] (first ∷ second ∷ [])
            (length_field (length payload) ++ (mask ++ p)) more tt (omega arith)
            (incoming ∙ whole) in
        let (value, stored, after, quiet) =
          dispatch_frame-Gets w' bufsize first flag text fits small left in
        let session =
          ap
            (λ s. elim s as (λ _. Received W) [
              | none ↦ refused net w
              | some session ↦ after_header net bufsize session (read_loop net 2 session 2 w)
            ])
            found in
        rw (session, got) (value, stored, after, quiet ∙ same)
