-- ===== src/WebSocket/Bounds.antt =====
-- The buffer of `ws_read`, whatever arrives.
use zappy.Prelude.{
  ℕ, zero, suc, ◌-◌, ◌≤◌, ◌≡◌, refl, ap, ◌∙◌, ltb, ◌==◌, if◌then◌else◌, Bool, true, false, inl, inr,
  Option, none, some, List, [], ◌∷◌, length, arith, length-append, Bool-cases, ltb→le, ◌&&◌, leb,
  get_or,
}
use Prim.Native.Nat.{bit_and}
use zappy.Prelude.Int.{pos}
use zappy.SslTable.{SslTable, ssl_table_get}
use zappy.WebSocket.{
  Ssl, Received, unmask, to_int, read_loop, read_more, read_once, finish, take_payload, take_body,
  take_length, text_frame, answer_ping, ping_frame, dispatch_frame, after_header, ws_read, refused,
  failure, ping_max, long_length,
}

-- `SSL_read` gives no more bytes than there is room for.
module _ {W : Type 0} (net : Ssl W) where
  abbrev pub KeepsRoom : Type 0
  KeepsRoom =
      (w : W) (ssl n : ℕ) (bytes : List ℕ)
      → (net.ssl_read w ssl n).0 ≡ some bytes
      → length bytes ≤ n

length-unmask :
    (mask : List ℕ) (i : ℕ) (bytes : List ℕ) → length (unmask mask i bytes) ≡ length bytes
unfolding unmask
length-unmask mask i [] = refl
length-unmask mask i (b ∷ bs) = ap suc (length-unmask mask (suc i) bs)

module _ {W : Type 0} (net : Ssl W) (room : KeepsRoom net) where
  -- A loop that wants `missing` bytes never gets more, and it gets them all if it ends well.
  abbrev Fits : ℕ → (Bool × List ℕ) × W → Type 0
  Fits missing r = (length r.0.1 ≤ missing) × (r.0.0 ≡ true → length r.0.1 ≡ missing)

  read_more-Fits :
      (again : ℕ → W → (Bool × List ℕ) × W) (missing : ℕ) (got : Option (List ℕ) × W)
      → ((bytes : List ℕ) → got.0 ≡ some bytes → length bytes ≤ missing)
      → ((m : ℕ) (w : W) → Fits m (again m w))
      → Fits missing (read_more net again missing got)
  unfolding read_more
  read_more-Fits again missing (none, w) h rest = (omega arith, λ e. absurd (ground arith))
  read_more-Fits again missing (some [], w) h rest = (omega arith, λ e. absurd (ground arith))
  read_more-Fits again missing (some (b ∷ bs), w) h rest =
      let (small, exact) = rest (missing - length (b ∷ bs)) w in
      let more = (again (missing - length (b ∷ bs)) w).0.1 in
      let fits = h (b ∷ bs) refl in
      (omega (arith, length-append bs more), λ e. omega (arith, length-append bs more, exact e))

  read_loop-Fits : (fuel ssl missing : ℕ) (w : W) → Fits missing (read_loop net fuel ssl missing w)
  unfolding read_loop
  read_loop-Fits fuel ssl zero w = (omega arith, λ e. refl)
  read_loop-Fits zero ssl (suc m) w = (omega arith, λ e. absurd (ground arith))
  read_loop-Fits (suc fuel) ssl (suc m) w =
      read_more-Fits (λ missing w'. read_loop net fuel ssl missing w') (suc m)
        (net.ssl_read w ssl (suc m)) (room w ssl (suc m))
        (λ missing w'. read_loop-Fits fuel ssl missing w')

  -- What a caller with a buffer of some size may rely on.
  pub data Kept (bufsize : ℕ) : Received W → Type 0 where
    kept_failed :
        {stored : List ℕ} {w : W}
        → length stored ≤ bufsize
        → Kept bufsize (record { value = failure; stored = stored; sessions = w })
    kept_closed : {w : W} → Kept bufsize (record { value = pos 0; stored = []; sessions = w })
    kept_pong : {w : W} → Kept bufsize (record { value = pos 1; stored = []; sessions = w })
    kept_text :
        {stored : List ℕ} {w : W}
        → length stored ≤ bufsize
        → Kept bufsize (record { value = to_int (length stored); stored = stored; sessions = w })

  if-Kept :
      (bufsize : ℕ) (t : Bool) (x y : Received W)
      → Kept bufsize x
      → Kept bufsize y
      → Kept bufsize (if t then x else y)
  if-Kept bufsize true x y p q = p
  if-Kept bufsize false x y p q = q

  finish-Kept :
      (bufsize len : ℕ) (mask : List ℕ) (r : (Bool × List ℕ) × W)
      → len ≤ bufsize
      → Fits len r
      → Kept bufsize (finish net mask len r)
  unfolding finish
  finish-Kept bufsize len mask ((true, bytes), w) h (small, exact) =
      let size = length-unmask mask 0 bytes ∙ exact refl in
      rw (← size) (kept_text (omega (arith, size)))
  finish-Kept bufsize len mask ((false, bytes), w) h (small, exact) = kept_failed (omega arith)

  take_payload-Kept :
      (bufsize ssl len : ℕ) (got : Option (List ℕ) × W)
      → len ≤ bufsize
      → Kept bufsize (take_payload net ssl len got)
  unfolding take_payload
  take_payload-Kept bufsize ssl len (none, w) h = kept_closed
  take_payload-Kept bufsize ssl len (some mask, w) h =
      finish-Kept bufsize len mask (read_loop net len ssl len w) h (read_loop-Fits len ssl len w)

  take_body-Kept : (bufsize ssl len : ℕ) (w : W) → Kept bufsize (take_body net bufsize ssl len w)
  unfolding take_body
  take_body-Kept bufsize ssl len w = elim (Bool-cases (ltb bufsize len)) [
    | inl large ↦ rw large (kept_failed (omega arith))
    | inr fits ↦
        rw fits
          (take_payload-Kept bufsize ssl len (read_once net w ssl 4) (ltb→le bufsize len fits))
  ]

  take_length-Kept :
      (bufsize ssl : ℕ) (got : Option (List ℕ) × W) → Kept bufsize (take_length net bufsize ssl got)
  unfolding take_length
  take_length-Kept bufsize ssl (none, w) = kept_failed (omega arith)
  take_length-Kept bufsize ssl (some bytes, w) = take_body-Kept bufsize ssl (long_length 0 bytes) w

  text_frame-Kept : (bufsize ssl len : ℕ) (w : W) → Kept bufsize (text_frame net bufsize ssl len w)
  unfolding text_frame
  text_frame-Kept bufsize ssl len w =
      if-Kept bufsize (len == 126) _ _ (take_length-Kept bufsize ssl (read_once net w ssl 2)) (
        if-Kept bufsize (len == 127) _ _ (take_length-Kept bufsize ssl (read_once net w ssl 8))
          (take_body-Kept bufsize ssl len w))

  answer_ping-Kept :
      (bufsize ssl : ℕ) (got : Option (List ℕ) × W) → Kept bufsize (answer_ping net ssl got)
  unfolding answer_ping
  answer_ping-Kept bufsize ssl (none, w) = kept_pong
  answer_ping-Kept bufsize ssl (some payload, w) = kept_pong

  ping_frame-Kept : (bufsize ssl len : ℕ) (w : W) → Kept bufsize (ping_frame net ssl len w)
  unfolding ping_frame
  ping_frame-Kept bufsize ssl len w =
      if-Kept bufsize (ltb 0 len && leb len ping_max) _ _
        (answer_ping-Kept bufsize ssl (read_once net w ssl len))
        (answer_ping-Kept bufsize ssl (none, w))

  dispatch_frame-Kept :
      (bufsize ssl opcode len : ℕ) (w : W)
      → Kept bufsize (dispatch_frame net bufsize ssl opcode len w)
  unfolding dispatch_frame
  dispatch_frame-Kept bufsize ssl opcode len w = if-Kept bufsize (opcode == 0x8) _ _ kept_closed (
      if-Kept bufsize (opcode == 0x9) _ _ (ping_frame-Kept bufsize ssl len w)
        (if-Kept bufsize (opcode == 0x1) _ _ (text_frame-Kept bufsize ssl len w) kept_closed))

  after_header-Kept :
      (bufsize ssl : ℕ) (got : (Bool × List ℕ) × W)
      → Kept bufsize (after_header net bufsize ssl got)
  unfolding after_header
  after_header-Kept bufsize ssl ((true, header), w) =
      dispatch_frame-Kept bufsize ssl (bit_and (get_or header 0 0) 0x0F)
        (bit_and (get_or header 1 0) 0x7F) w
  after_header-Kept bufsize ssl ((false, header), w) = kept_failed (omega arith)

  -- `ws_read` stores no more bytes than the buffer has, whatever the client sends and however it
  -- arrives, if `SSL_read` keeps to the room that it is given. It returns ERROR, 0 or 1, the last
  -- two with nothing stored, or the number of the bytes that it has stored.
  pub ws_read-Kept :
      (t : SslTable) (w : W) (fd bufsize : ℕ) → Kept bufsize (ws_read net t w fd bufsize)
  unfolding ws_read
  ws_read-Kept t w fd bufsize =
      elim (ssl_table_get t fd)
        as (λ s. Kept bufsize (elim s as (λ _. Received W) [
          | none ↦ refused net w
          | some ssl ↦ after_header net bufsize ssl (read_loop net 2 ssl 2 w)
        ])) [
          | none ↦ kept_failed (omega arith)
          | some ssl ↦ after_header-Kept bufsize ssl (read_loop net 2 ssl 2 w)
        ]
