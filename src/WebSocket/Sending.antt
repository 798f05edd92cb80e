-- ===== src/WebSocket/Sending.antt =====
-- The frames that `ws_send` writes, against a reader of the frames of RFC 6455.
use Prim.Native.Nat.{bit_and}
use zappy.Prelude.{
  ℕ, ◌+◌, ◌*◌, ◌/◌, ◌^◌, ◌≤◌, ◌<◌, ◌≡◌, refl, ap, ◌∙◌, ltb, leb, ◌==◌, if◌then◌else◌, true, inl,
  inr, Option, none, some, List, [], ◌∷◌, ◌++◌, length, take, drop, arith, take-append, drop-append,
  length-append, append_assoc, Bool-cases, ltb→lt, le→leb, lt→ltb, ltb→le, le→ltb, lt→leb,
}
use zappy.Prelude.Int.{pos}
use zappy.Prelude.Bits.{low_byte}
use zappy.SslTable.{SslTable, ssl_table_get}
use zappy.WebSocket.{Ssl, frame_header, frame_size, size_bytes, ws_send, ws_send_on, failure}
use zappy.WebSocket.Stream.{Delivers}

-- A number from its bytes, highest first.
abbrev pub from_bytes : ℕ → List ℕ → ℕ
from_bytes acc [] = acc
from_bytes acc (b ∷ bs) = from_bytes (acc * 256 + b) bs

-- The first n bytes and the others, if there are so many.
abbrev pub split_off : ℕ → List ℕ → Option (List ℕ × List ℕ)
split_off n bytes = if leb n (length bytes) then some (take n bytes, drop n bytes) else none

abbrev payload_after : Option (List ℕ × List ℕ) → Option (List ℕ × List ℕ)
payload_after none = none
payload_after (some (size, bytes)) = split_off (from_bytes 0 size) bytes

-- Section 5.2: a whole text frame without a mask, and the bytes after it.
abbrev pub text_payload : List ℕ → Option (List ℕ × List ℕ)
text_payload [] = none
text_payload (first ∷ []) = none
text_payload (first ∷ second ∷ bytes) =
    if first == 129
    then if ltb second 126
      then split_off second bytes
      else if second == 126
      then payload_after (split_off 2 bytes)
      else if second == 127
      then payload_after (split_off 8 bytes)
      else none
    else none

split_off-append : (xs ys : List ℕ) → split_off (length xs) (xs ++ ys) ≡ some (xs, ys)
split_off-append xs ys =
    rw (take-append xs ys, drop-append xs ys)
      (ap (λ t. if t then some (xs, ys) else none)
        (le→leb (length xs) (length (xs ++ ys)) (omega (arith, length-append xs ys))))

from_bytes-two :
    (n : ℕ) → n < 2 ^ 16 → from_bytes 0 (bit_and (n / 2 ^ 8) 0xFF ∷ bit_and n 0xFF ∷ []) ≡ n
from_bytes-two n h = omega (arith, low_byte (n / 2 ^ 8), low_byte n)

from_bytes-size_bytes : (n : ℕ) → n < 2 ^ 64 → from_bytes 0 (size_bytes 8 n) ≡ n
unfolding size_bytes
from_bytes-size_bytes n h = omega (
  arith,
  low_byte (n / 2 ^ 56),
  low_byte (n / 2 ^ 48),
  low_byte (n / 2 ^ 40),
  low_byte (n / 2 ^ 32),
  low_byte (n / 2 ^ 24),
  low_byte (n / 2 ^ 16),
  low_byte (n / 2 ^ 8),
  low_byte (n / 2 ^ 0),
)

header_short : (n : ℕ) → n < 126 → frame_header n ≡ 0x81 ∷ n ∷ []
unfolding frame_header
header_short n h = rw (lt→ltb n 126 h) refl

header_medium :
    (n : ℕ)
    → 126 ≤ n
    → n < 2 ^ 16
    → frame_header n ≡ 0x81 ∷ 126 ∷ bit_and (n / 2 ^ 8) 0xFF ∷ bit_and n 0xFF ∷ []
unfolding frame_header
header_medium n low high = rw (le→ltb n 126 low, le→leb n 0xFFFF (omega arith)) refl

header_long : (n : ℕ) → 2 ^ 16 ≤ n → frame_header n ≡ 0x81 ∷ 127 ∷ size_bytes 8 n
unfolding frame_header
header_long n h = rw (le→ltb n 126 (omega arith), lt→leb n 0xFFFF (omega arith)) refl

-- A length field of some bytes with the payload and more bytes behind it.
payload_after-append :
    (size buf rest : List ℕ)
    → from_bytes 0 size ≡ length buf
    → payload_after (split_off (length size) (size ++ (buf ++ rest))) ≡ some (buf, rest)
payload_after-append size buf rest e =
    ap payload_after (split_off-append size (buf ++ rest))
    ∙ ap (λ n. split_off n (buf ++ rest)) e
    ∙ split_off-append buf rest

text_payload-header :
    (buf rest : List ℕ)
    → length buf < 2 ^ 64
    → text_payload (frame_header (length buf) ++ (buf ++ rest)) ≡ some (buf, rest)
unfolding size_bytes
text_payload-header buf rest h = elim (Bool-cases (ltb (length buf) 126)) [
  | inl short ↦
      rw (header_short (length buf) (ltb→lt (length buf) 126 short), short)
        (split_off-append buf rest)
  | inr long ↦ elim (Bool-cases (ltb (length buf) (2 ^ 16))) [
    | inl medium ↦
        rw
          (header_medium (length buf) (ltb→le (length buf) 126 long)
            (ltb→lt (length buf) (2 ^ 16) medium))
          (payload_after-append (_ ∷ _ ∷ []) buf rest
            (from_bytes-two (length buf) (ltb→lt (length buf) (2 ^ 16) medium)))
    | inr huge ↦ rw (header_long (length buf) (ltb→le (length buf) (2 ^ 16) huge)) (
        payload_after-append (size_bytes 8 (length buf)) buf rest
          (from_bytes-size_bytes (length buf) h))
  ]
]

-- The memory that `ws_send` asks for holds the frame, whatever its length is, with no byte to
-- spare.
pub frame_size-exact :
    (buf : List ℕ) → length (frame_header (length buf) ++ buf) ≡ frame_size (length buf)
unfolding frame_header frame_size size_bytes
frame_size-exact buf = ground (arith, length-append (frame_header (length buf)) buf)

frame-fits :
    (buf : List ℕ) → length buf + 10 < 2 ^ 31 → length (frame_header (length buf) ++ buf) < 2 ^ 31
unfolding frame_size
frame-fits buf h = ground (arith, frame_size-exact buf)

module _ {W : Type 0} (net : Ssl W) (d : Delivers net) (t : SslTable) (w : W) where
  ws_send-found :
      (fd ssl : ℕ) (buf : List ℕ)
      → ssl_table_get t fd ≡ some ssl
      → ws_send net true t w fd buf ≡ net.ssl_write w ssl (frame_header (length buf) ++ buf)
  unfolding ws_send ws_send_on
  ws_send-found fd ssl buf found =
      ap (λ s. elim s [ none ↦ (failure, w) | some session ↦ ws_send_on net true w session buf ])
        found

  -- `ws_send`, with memory, on a socket that has a session: what it writes is read by section 5.2
  -- of RFC 6455 as one whole text message, with the bytes of the buffer and nothing left over,
  -- whatever is written after it. The value is the number of bytes written, and what waits to be
  -- read on the session stays as it is. The frame is shorter than 2 ^ 31 bytes.
  pub ws_send-payload :
      (fd ssl : ℕ) (buf : List ℕ)
      → ssl_table_get t fd ≡ some ssl
      → length buf + 10 < 2 ^ 31
      → let (value, w') = ws_send net true t w fd buf in
        (frame : List ℕ) × (d.sent w' ssl ≡ d.sent w ssl ++ frame)
        × (value ≡ pos (length frame))
        × (d.incoming w' ssl ≡ d.incoming w ssl)
        × ((rest : List ℕ) → text_payload (frame ++ rest) ≡ some (buf, rest))
  ws_send-payload fd ssl buf found h =
      let frame = frame_header (length buf) ++ buf in
      let (value, same, written) = d.write w ssl frame (frame-fits buf h) in
      rw (ws_send-found fd ssl buf found) (
        frame,
        written,
        value,
        same,
        λ rest.
            ap text_payload (append_assoc (frame_header (length buf)) buf rest)
            ∙ text_payload-header buf rest (omega arith),
      )
