-- ===== src/WebSocket/Control.antt =====
-- The control frames of ssl_al.c: the close frames that the server writes, and what `ws_read`
-- makes of frames that are neither text nor ping.
use Prim.Native.Nat.{bit_and}
use zappy.Prelude.{
  ℕ, ◌+◌, ◌*◌, ◌/◌, ◌%◌, ◌^◌, ◌<◌, ◌≡◌, refl, ap, ◌∙◌, leb, ◌==◌, ◌&&◌, if◌then◌else◌, true, ◌≢◌,
  inl, inr, Option, none, some, List, [], ◌∷◌, ◌++◌, length, take, arith, length-take, append_assoc,
  Bool-cases, ==_ne, codes,
}
use zappy.Prelude.Int.{ℤ, pos}
use zappy.Prelude.Bits.{low_nibble, low_seven, low_byte}
use zappy.SslTable.{SslTable, ssl_table_get}
use zappy.WebSocket.{
  Ssl, Received, close_payload, close_frame, ws_send_close, read_loop, dispatch_frame, after_header,
  ws_read, refused, handled, failure,
}
use zappy.WebSocket.Stream.{Delivers, front, read_loop-pieces}

-- Section 5.5.1: the code and the reason of a whole close frame, whose length is one byte.
abbrev pub close_reason : List ℕ → Option (ℕ × List ℕ)
close_reason (first ∷ size ∷ high ∷ low ∷ reason) =
    if (first == 136) && ((size == length (high ∷ low ∷ reason)) && leb size 125)
    then some (256 * high + low, reason)
    else none
close_reason _ = none

close_reason-payload :
    (code : ℕ) (reason : List ℕ)
    → code < 2 ^ 16
    → close_reason (0x88 ∷ length (close_payload code reason) ∷ close_payload code reason)
      ≡ some (code, take 123 reason)
unfolding close_payload
close_reason-payload code reason h =
    let high = bit_and (code / 2 ^ 8) 0xFF in
    let low = bit_and code 0xFF in
    let short = take 123 reason in
    let size = length (high ∷ low ∷ short) in
    let whole : ((size == size) && leb size 125) ≡ true = ground (arith, length-take 123 reason) in
    let number : 256 * high + low ≡ code = omega (arith, low_byte (code / 2 ^ 8), low_byte code) in
    ap (λ t. if t then some (256 * high + low, short) else none) whole
    ∙ ap (λ n. some (n, short)) number

-- What `ws_read` answers to an opcode that is neither text nor ping.
abbrev pub closing_code : ℕ → ℕ
closing_code opcode = if opcode == 8 then 1000 else 1002

abbrev pub closing_reason : ℕ → List ℕ
closing_reason opcode =
    if opcode == 8 then codes "Bye!" else codes "Protocol error: unsupported opcode"

closing_reason-short : (opcode : ℕ) → take 123 (closing_reason opcode) ≡ closing_reason opcode
closing_reason-short opcode = elim (Bool-cases (opcode == 8)) [
  | inl bye ↦ rw bye refl
  | inr other ↦ rw other refl
]

module _ {W : Type 0} (net : Ssl W) (d : Delivers net) (ssl : ℕ) where
  -- Nothing is read, and what is sent is one close frame.
  abbrev pub Closes : ℕ → List ℕ → W → W → Type 0
  Closes code reason w w' =
      (d.incoming w' ssl ≡ d.incoming w ssl)
      × ((frame : List ℕ) × (d.sent w' ssl ≡ d.sent w ssl ++ frame)
          × (close_reason frame ≡ some (code, reason)))

  close_frame-Closes :
      (w : W) (code : ℕ) (reason : List ℕ)
      → code < 2 ^ 16
      → Closes code (take 123 reason) w (close_frame net w ssl code reason)
  unfolding close_frame close_payload
  close_frame-Closes w code reason h =
      let body = close_payload code reason in
      let head = 0x88 ∷ length body ∷ [] in
      let w1 = (net.ssl_write w ssl head).1 in
      let (value, same, written) = d.write w ssl head (omega arith) in
      let (value2, same2, written2) = d.write w1 ssl body (omega (arith, length-take 123 reason)) in
      (
        same2 ∙ same,
        (
          head ++ body,
          written2 ∙ ap (λ l. l ++ body) written ∙ append_assoc (d.sent w ssl) head body,
          close_reason-payload code reason h,
        ),
      )

  -- `ws_send_close` on a socket that has a session, with a code of 16 bits: it returns 0 and sends
  -- one close frame, from which the code and the first 123 bytes of the reason are read.
  pub ws_send_close-reason :
      (t : SslTable) (w : W) (fd code : ℕ) (reason : List ℕ)
      → ssl_table_get t fd ≡ some ssl
      → code < 2 ^ 16
      → let (value, w') = ws_send_close net t w fd code reason in
        (value ≡ pos 0) × Closes code (take 123 reason) w w'
  unfolding ws_send_close
  ws_send_close-reason t w fd code reason found h =
      let session =
        ap
          (λ s. elim s as (λ _. ℤ × W) [
            | none ↦ (failure, w)
            | some session ↦ (pos 0, close_frame net w session code reason)
          ])
          found in
      rw session (refl, close_frame-Closes w code reason h)

  -- The two bytes that every frame begins with.
  abbrev pub Begins : W → ℕ → ℕ → List ℕ → List (List ℕ) → Type 0
  Begins w first second bytes more = d.incoming w ssl ≡ (first ∷ second ∷ bytes) ∷ more

  pub header_read :
      (t : SslTable) (w : W) (fd bufsize first second : ℕ) (bytes : List ℕ) (more : List (List ℕ))
      → ssl_table_get t fd ≡ some ssl
      → Begins w first second bytes more
      → (w' : W) × (ws_read net t w fd bufsize
          ≡ dispatch_frame net bufsize ssl (first % 16) (second % 128) w')
        × (d.incoming w' ssl ≡ front bytes more)
        × (d.sent w' ssl ≡ d.sent w ssl)
  unfolding ws_read after_header
  header_read t w fd bufsize first second bytes more found incoming =
      let (w', got, left, same) =
        read_loop-pieces net d 2 ssl w [] (first ∷ second ∷ []) bytes more tt (omega arith)
          incoming in
      let session =
        ap
          (λ s. elim s as (λ _. Received W) [
            | none ↦ refused net w
            | some session ↦ after_header net bufsize session (read_loop net 2 session 2 w)
          ])
          found in
      (
        w',
        session
            ∙ ap (after_header net bufsize ssl) got
            ∙ ap (λ o. dispatch_frame net bufsize ssl o (bit_and second 0x7F) w') (low_nibble first)
            ∙ ap (λ l. dispatch_frame net bufsize ssl (first % 16) l w') (low_seven second),
        left,
        same,
      )

  dispatch_frame-closes :
      (w : W) (bufsize opcode len : ℕ)
      → opcode ≢ 1
      → opcode ≢ 9
      → dispatch_frame net bufsize ssl opcode len w
        ≡ handled net (pos 0) (close_frame net w ssl (closing_code opcode) (closing_reason opcode))
  unfolding dispatch_frame
  dispatch_frame-closes w bufsize opcode len text ping = elim (Bool-cases (opcode == 8)) [
    | inl bye ↦ rw bye refl
    | inr other ↦ rw (other, ==_ne opcode 9 ping, ==_ne opcode 1 text) refl
  ]

  -- `ws_read` on a frame whose opcode is neither 1 (text) nor 9 (ping), a continuation and binary
  -- data among them: it returns 0, for which the server disconnects the client, stores nothing,
  -- reads only the two bytes that frames begin with, and sends one close frame, with the code 1000
  -- if the client closes and 1002 otherwise.
  pub ws_read-closes :
      (t : SslTable) (w : W) (fd bufsize first second : ℕ) (bytes : List ℕ) (more : List (List ℕ))
      → ssl_table_get t fd ≡ some ssl
      → Begins w first second bytes more
      → first % 16 ≢ 1
      → first % 16 ≢ 9
      → let r = ws_read net t w fd bufsize in
        (r.value ≡ pos 0)
        × (r.stored ≡ [])
        × (d.incoming r.sessions ssl ≡ front bytes more)
        × ((frame : List ℕ) × (d.sent r.sessions ssl ≡ d.sent w ssl ++ frame)
            × (close_reason frame ≡ some (closing_code (first % 16), closing_reason (first % 16))))
  ws_read-closes t w fd bufsize first second bytes more found incoming text ping =
      let opcode = first % 16 in
      let (w', begun, left, same) =
        header_read t w fd bufsize first second bytes more found incoming in
      let (read, (frame, sent, reason)) =
        close_frame-Closes w' (closing_code opcode) (closing_reason opcode) (ground arith) in
      rw (begun, dispatch_frame-closes w' bufsize opcode (second % 128) text ping)
        (
          refl,
          refl,
          read ∙ left,
          (
            frame,
            sent ∙ ap (λ l. l ++ frame) same,
            reason ∙ ap (λ q. some (closing_code opcode, q)) (closing_reason-short opcode),
          ),
        )
