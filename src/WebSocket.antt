-- ===== src/WebSocket.antt =====
-- server/srcs/server/ssl_al.c: the WebSocket frames that the server reads and writes on a TLS
-- session. OpenSSL is the parameter `Ssl`; a byte is a number below 256, and a socket is not
-- negative.
pub mod Stream
pub mod Sending
pub mod Receiving
pub mod Control
pub mod Pings
pub mod Bounds
use Prim.Native.Nat.{bit_and, bit_or, bit_xor}
use zappy.Prelude.{
  ℕ, zero, suc, ◌+◌, ◌-◌, ◌*◌, ◌/◌, ◌%◌, ◌^◌, ◌==◌, ltb, leb, if◌then◌else◌, Bool, true, false,
  ◌&&◌, Option, none, some, List, [], ◌∷◌, ◌++◌, length, get_or, take, codes,
}
use zappy.Prelude.Int.{ℤ, pos, negsuc}
use zappy.SslTable.{SslTable, ssl_table_get}

-- What the code calls of OpenSSL: `W` is the state of all sessions. `ssl_read w ssl n` is
-- `SSL_read` with room for n bytes: the bytes that it stores, `none` where it returns 0 or less.
-- `ssl_write` is `SSL_write` with what it returns.
pub record Ssl (W : Type 0) : Type 0 where
  pub ssl_read : W → ℕ → ℕ → Option (List ℕ) × W
  pub ssl_write : W → ℕ → List ℕ → ℤ × W

-- The value of `ws_read`, the bytes that it has stored from the start of the buffer, and the
-- sessions.
pub record Received (W : Type 0) : Type 0 where
  pub value : ℤ
  pub stored : List ℕ
  pub sessions : W

-- ERROR
abbrev pub failure : ℤ
failure = negsuc 0

-- sizeof(ping_payload)
abbrev pub ping_max : ℕ
ping_max = 125

-- The cast of a `size_t` to `int`.
unfoldable pub to_int : ℕ → ℤ
to_int n = let low = n % 2 ^ 32 in if ltb low (2 ^ 31) then pos low else negsuc (2 ^ 32 - low - 1)

-- The loop that writes the length of a long frame, highest byte first, with i bytes to go.
unfoldable pub size_bytes : ℕ → ℕ → List ℕ
size_bytes zero len = []
size_bytes (suc i) len = bit_and (len / 2 ^ (8 * i)) 0xFF ∷ size_bytes i len

-- The first bytes of the frame of `ws_send`.
unfoldable pub frame_header : ℕ → List ℕ
unfolding size_bytes
frame_header len =
    if ltb len 126
    then 0x81 ∷ len ∷ []
    else if leb len 0xFFFF
    then 0x81 ∷ 126 ∷ bit_and (len / 2 ^ 8) 0xFF ∷ bit_and len 0xFF ∷ []
    else 0x81 ∷ 127 ∷ size_bytes 8 len

-- The memory that `ws_send` asks for.
unfoldable pub frame_size : ℕ → ℕ
frame_size len =
    if ltb len 126 then 2 + len else if leb len 0xFFFF then 2 + (2 + len) else 2 + (8 + len)

-- The body of a frame that closes the connection.
unfoldable pub close_payload : ℕ → List ℕ → List ℕ
close_payload code reason = bit_and (code / 2 ^ 8) 0xFF ∷ bit_and code 0xFF ∷ take 123 reason

-- The last loop of `ws_read`, from byte i on.
unfoldable pub unmask : List ℕ → ℕ → List ℕ → List ℕ
unmask mask i [] = []
unmask mask i (b ∷ bs) = bit_xor b (get_or mask (i % 4) 0) ∷ unmask mask (suc i) bs

-- The loop that reads the length of a long frame, in 64 bits.
unfoldable pub long_length : ℕ → List ℕ → ℕ
long_length acc [] = acc
long_length acc (b ∷ bs) = long_length (bit_or (acc * 2 ^ 8 % 2 ^ 64) b) bs

module _ {W : Type 0} (net : Ssl W) where
  -- `allocated` tells whether `malloc` returns memory. The length fits in an `int`.
  ws_send_on : Bool → W → ℕ → List ℕ → ℤ × W
  unfolding frame_header
  ws_send_on true w ssl buf = net.ssl_write w ssl (frame_header (length buf) ++ buf)
  ws_send_on false w ssl buf = (failure, w)

  unfoldable pub ws_send : Bool → SslTable → W → ℕ → List ℕ → ℤ × W
  unfolding ws_send_on
  ws_send allocated t w fd buf = elim (ssl_table_get t fd) [
    | none ↦ (failure, w)
    | some ssl ↦ ws_send_on allocated w ssl buf
  ]

  -- What `ws_send_close` writes on a session.
  unfoldable pub close_frame : W → ℕ → ℕ → List ℕ → W
  unfolding close_payload
  close_frame w ssl code reason =
      let frame = close_payload code reason in
      let w1 = (net.ssl_write w ssl (0x88 ∷ length frame ∷ [])).1 in (net.ssl_write w1 ssl frame).1

  unfoldable pub ws_send_close : SslTable → W → ℕ → ℕ → List ℕ → ℤ × W
  unfolding close_frame
  ws_send_close t w fd code reason = elim (ssl_table_get t fd) [
    | none ↦ (failure, w)
    | some ssl ↦ (pos 0, close_frame w ssl code reason)
  ]

  unfoldable pub m_ws_send_control_frame : W → ℕ → ℕ → List ℕ → ℤ × W
  m_ws_send_control_frame w ssl opcode payload =
      if ltb 125 (length payload)
      then (failure, w)
      else net.ssl_write w ssl (bit_or 0x80 opcode ∷ length payload ∷ payload)

  -- What a round of a reading loop makes of a result of `SSL_read`; `again` is the rest of the
  -- loop, which is told how many bytes are missing.
  read_more : (ℕ → W → (Bool × List ℕ) × W) → ℕ → Option (List ℕ) × W → (Bool × List ℕ) × W
  read_more again missing (none, w) = ((false, []), w)
  read_more again missing (some [], w) = ((false, []), w)
  read_more again missing (some (b ∷ bs), w) =
      let ((whole, rest), w') = again (missing - length (b ∷ bs)) w in
      ((whole, (b ∷ bs) ++ rest), w')

  -- A loop of `SSL_read` until `missing` bytes are there: whether it ends so, and the bytes that
  -- came. Each round takes a byte or more off, so `missing` is enough fuel.
  unfoldable pub read_loop : ℕ → ℕ → ℕ → W → (Bool × List ℕ) × W
  unfolding read_more
  read_loop fuel ssl zero w = ((true, []), w)
  read_loop zero ssl (suc m) w = ((false, []), w)
  read_loop (suc fuel) ssl (suc m) w =
      read_more (λ missing w'. read_loop fuel ssl missing w') (suc m) (net.ssl_read w ssl (suc m))

  -- A call of `SSL_read` that has to give all the n bytes at once.
  exactly : ℕ → Option (List ℕ) × W → Option (List ℕ) × W
  exactly n (none, w) = (none, w)
  exactly n (some bs, w) = if length bs == n then (some bs, w) else (none, w)

  unfoldable pub read_once : W → ℕ → ℕ → Option (List ℕ) × W
  unfolding exactly
  read_once w ssl n = exactly n (net.ssl_read w ssl n)

  abbrev pub refused : W → Received W
  refused w = record { value = failure; stored = []; sessions = w }

  abbrev pub handled : ℤ → W → Received W
  handled r w = record { value = r; stored = []; sessions = w }

  -- From the loop over the payload on.
  finish : List ℕ → ℕ → (Bool × List ℕ) × W → Received W
  unfolding unmask to_int
  finish mask len ((true, bytes), w) = record {
    value = to_int len;
    stored = unmask mask 0 bytes;
    sessions = w;
  }
  finish mask len ((false, bytes), w) = record { value = failure; stored = bytes; sessions = w }

  -- From the mask on.
  take_payload : ℕ → ℕ → Option (List ℕ) × W → Received W
  unfolding finish read_loop close_frame
  take_payload ssl len (none, w) =
      handled (pos 0) (close_frame w ssl 1002 (codes "Malformed frame"))
  take_payload ssl len (some mask, w) = finish mask len (read_loop len ssl len w)

  -- From the test of the length against the buffer on.
  unfoldable pub take_body : ℕ → ℕ → ℕ → W → Received W
  unfolding take_payload read_once
  take_body bufsize ssl len w =
      if ltb bufsize len then refused w else take_payload ssl len (read_once w ssl 4)

  -- A length of 126 or 127 says that the length stands in the next 2 or 8 bytes.
  take_length : ℕ → ℕ → Option (List ℕ) × W → Received W
  unfolding take_body long_length
  take_length bufsize ssl (none, w) = refused w
  take_length bufsize ssl (some bytes, w) = take_body bufsize ssl (long_length 0 bytes) w

  unfoldable pub text_frame : ℕ → ℕ → ℕ → W → Received W
  unfolding take_length
  text_frame bufsize ssl len w =
      if len == 126
      then take_length bufsize ssl (read_once w ssl 2)
      else if len == 127
      then take_length bufsize ssl (read_once w ssl 8)
      else take_body bufsize ssl len w

  answer_ping : ℕ → Option (List ℕ) × W → Received W
  unfolding m_ws_send_control_frame
  answer_ping ssl (none, w) = handled (pos 1) (m_ws_send_control_frame w ssl 0xA []).1
  answer_ping ssl (some payload, w) = handled (pos 1) (m_ws_send_control_frame w ssl 0xA payload).1

  unfoldable pub ping_frame : ℕ → ℕ → W → Received W
  unfolding answer_ping
  ping_frame ssl len w =
      if ltb 0 len && leb len ping_max
      then answer_ping ssl (read_once w ssl len)
      else answer_ping ssl (none, w)

  -- The dispatch on the opcode, with the length of the second byte.
  unfoldable pub dispatch_frame : ℕ → ℕ → ℕ → ℕ → W → Received W
  unfolding text_frame ping_frame close_frame
  dispatch_frame bufsize ssl opcode len w =
      if opcode == 0x8
      then handled (pos 0) (close_frame w ssl 1000 (codes "Bye!"))
      else if opcode == 0x9
      then ping_frame ssl len w
      else if opcode == 0x1
      then text_frame bufsize ssl len w
      else handled (pos 0) (close_frame w ssl 1002 (codes "Protocol error: unsupported opcode"))

  after_header : ℕ → ℕ → (Bool × List ℕ) × W → Received W
  unfolding dispatch_frame
  after_header bufsize ssl ((true, header), w) =
      dispatch_frame bufsize ssl (bit_and (get_or header 0 0) 0x0F)
        (bit_and (get_or header 1 0) 0x7F) w
  after_header bufsize ssl ((false, header), w) = refused w

  unfoldable pub ws_read : SslTable → W → ℕ → ℕ → Received W
  unfolding after_header
  ws_read t w fd bufsize = elim (ssl_table_get t fd) [
    | none ↦ refused w
    | some ssl ↦ after_header bufsize ssl (read_loop 2 ssl 2 w)
  ]
