-- ===== src/Wire/Delivery.antt =====
-- What the server makes of the frames of a client.
use zappy.Prelude.{
  ℕ, ◌-◌, ◌%◌, ◌^◌, ◌≤◌, ◌<◌, ◌≡◌, ◌≢◌, ap, ◌∙◌, some, List, [], ◌∷◌, ◌++◌, length, drop, arith,
  ltb, if◌then◌else◌, take-append, lt→ltb,
}
use zappy.Prelude.Int.{ℤ, pos, negsuc}
use zappy.SslTable.{SslTable, ssl_table_get}
use zappy.WebSocket.{Ssl, Received, ws_read, to_int}
use zappy.WebSocket.Stream.{Delivers, front}
use zappy.WebSocket.Receiving.{Body, ws_read-payload, mask_bytes, client_header}
use zappy.WebSocket.Control.{Begins, ws_read-closes}
use zappy.Server.{Json, Server, handle_client_event, remove_client}
use zappy.Wire.{buffer_size, event_bytes, handle_received, m_handle_client_event}

to_int_small : (n : ℕ) → n < 2 ^ 31 → to_int n ≡ pos n
unfolding to_int
to_int_small n h =
    let low : n % 2 ^ 32 ≡ n = omega arith in
    ap (λ q. if ltb q (2 ^ 31) then pos q else negsuc (2 ^ 32 - q - 1)) low
    ∙ ap (λ b. if b then pos n else negsuc (2 ^ 32 - n - 1)) (lt→ltb n (2 ^ 31) h)

event_bytes-whole :
    (buffer : List ℕ) (x : ℕ) (xs : List ℕ)
    → event_bytes buffer (pos (length (x ∷ xs))) (x ∷ xs) ≡ some (x ∷ xs)
unfolding event_bytes
event_bytes-whole buffer x xs = ap some (take-append (x ∷ xs) (drop (length (x ∷ xs)) buffer))

module _ {J W : Type 0} (json : Json (List ℕ) J) (net : Ssl W) (d : Delivers net) (ssl : ℕ) where
  received-as :
      (s : Server) (fd : ℕ) (buffer stored : List ℕ) (value : ℤ) (r : Received W)
      → r.value ≡ value
      → r.stored ≡ stored
      → (handle_received json net s fd buffer r).0
        ≡ handle_client_event json s fd (event_bytes buffer value stored)
  unfolding handle_received
  received-as s fd buffer stored value r v b =
      ap (λ q. handle_client_event json s fd (event_bytes buffer q r.stored)) v
      ∙ ap (λ q. handle_client_event json s fd (event_bytes buffer value q)) b

  -- A text frame of a client with a payload of 1 to 4096 bytes, its header in one record and its
  -- payload cut into records in any way: `m_handle_client_event` hands the payload, the whole of it
  -- and nothing else, to the server, and what is left to read begins behind the frame.
  pub event-delivers :
      (a b c e x : ℕ) (xs p : List ℕ) (more : List (List ℕ))
      (body : Body (mask_bytes a b c e) (x ∷ xs) p more) (t : SslTable) (s : Server) (w : W)
      (fd first flag : ℕ) (buffer : List ℕ)
      → ssl_table_get t fd ≡ some ssl
      → first % 16 ≡ 1
      → length (x ∷ xs) ≤ buffer_size
      → d.incoming w ssl
        ≡ (client_header first flag (mask_bytes a b c e) (length (x ∷ xs)) ++ p) ∷ more
      → let (s', w') = m_handle_client_event json net t s w fd buffer in
        (s' ≡ handle_client_event json s fd (some (x ∷ xs)))
        × (d.incoming w' ssl ≡ front body.ys body.rest)
  unfolding m_handle_client_event handle_received
  event-delivers a b c e x xs p more body t s w fd first flag buffer found text fits incoming =
      let (value, stored, left, quiet) =
        ws_read-payload net d ssl a b c e (x ∷ xs) p more body t w fd buffer_size first flag found
          text fits (omega arith) incoming in
      (
        received-as s fd buffer (x ∷ xs) (pos (length (x ∷ xs))) (ws_read net t w fd buffer_size)
              (value ∙ to_int_small (length (x ∷ xs)) (omega arith)) stored
            ∙ ap (handle_client_event json s fd) (event_bytes-whole buffer x xs),
        left,
      )

  -- A frame that is neither text nor ping makes `m_handle_client_event` remove the client.
  pub event-removes :
      (t : SslTable) (s : Server) (w : W) (fd first second : ℕ) (bytes : List ℕ)
      (more : List (List ℕ)) (buffer : List ℕ)
      → ssl_table_get t fd ≡ some ssl
      → Begins net d ssl w first second bytes more
      → first % 16 ≢ 1
      → first % 16 ≢ 9
      → (m_handle_client_event json net t s w fd buffer).0 ≡ remove_client s fd
  unfolding m_handle_client_event event_bytes handle_client_event
  event-removes t s w fd first second bytes more buffer found begins text ping =
      let (value, stored, left, sent) =
        ws_read-closes net d ssl t w fd buffer_size first second bytes more found begins text
          ping in
      received-as s fd buffer [] (pos 0) (ws_read net t w fd buffer_size) value stored
