-- ===== src/Tests/Frames.antt =====
-- The theorems on the frames of WebSocket, on a session that is a list of records.
use zappy.Prelude.{
  ℕ, ◌≤◌, ◌≡◌, refl, sym, ap, true, Option, none, some, List, [], ◌∷◌, ◌++◌, length, take, arith,
  codes, length-take, some_inj,
}
use zappy.Prelude.Int.{pos}
use zappy.SslTable.{ssl_table_get, ssl_table_add, ssl_table_init}
use zappy.WebSocket.{Ssl, ws_read, ws_send}
use zappy.WebSocket.Stream.{Delivers, after, front}
use zappy.WebSocket.Receiving.{Body, mask_bytes, masked, client_header}
use zappy.WebSocket.Sending.{ws_send-payload, text_payload}
use zappy.WebSocket.Control.{ws_read-closes, close_reason, closing_code, closing_reason}
use zappy.WebSocket.Bounds.{KeepsRoom, Kept, ws_read-Kept}
use zappy.Tests.Sockets.{one_session, one_round}
use zappy.Server.{Json, handle_client_event}
use zappy.Wire.{m_handle_client_event}
use zappy.Wire.Delivery.{event-delivers}

-- The records that wait, and what was sent, on any session.
pub record Pipe : Type 0 where
  pub waits : List (List ℕ)
  pub went : List ℕ

abbrev pub read_records : Pipe → ℕ → List (List ℕ) → Option (List ℕ) × Pipe
read_records w n [] = (none, w)
read_records w n ([] ∷ rest) = (none, w)
read_records w n ((b ∷ bs) ∷ rest) =
    (some (take n (b ∷ bs)), record w { waits = after n (b ∷ bs) rest })

abbrev pub pipe : Ssl Pipe
pipe = record {
  ssl_read = λ w ssl n. read_records w n w.waits;
  ssl_write = λ w ssl bytes. (pos (length bytes), record w { went = w.went ++ bytes });
}

abbrev pub pipe_law : Delivers pipe
pipe_law = record {
  incoming = λ w ssl. w.waits;
  sent = λ w ssl. w.went;
  read = λ w ssl n b bs rest full e. (
    ap (λ l. (read_records w n l).0) e,
    ap (λ l. (read_records w n l).1.waits) e,
    ap (λ l. (read_records w n l).1.went) e,
  );
  write = λ w ssl bytes short. (refl, refl, refl);
}

records-KeepRoom :
    (w : Pipe) (n : ℕ) (l : List (List ℕ)) (bytes : List ℕ)
    → (read_records w n l).0 ≡ some bytes
    → length bytes ≤ n
records-KeepRoom w n [] bytes e = absurd (ground arith)
records-KeepRoom w n ([] ∷ rest) bytes e = absurd (ground arith)
records-KeepRoom w n ((b ∷ bs) ∷ rest) bytes e = rw (sym (some_inj e)) (length-take n (b ∷ bs))

pub pipe-KeepsRoom : KeepsRoom pipe
pipe-KeepsRoom w ssl n bytes e = records-KeepRoom w n w.waits bytes e

abbrev hello : List ℕ
hello = codes "Hello"

abbrev key : List ℕ
key = mask_bytes 55 250 33 61

pub has_session : ssl_table_get one_session 5 ≡ some 60
unfolding ssl_table_get ssl_table_add ssl_table_init
has_session = refl

-- The masked "Hello" of RFC 6455 in three pieces, with the start of the next frame behind it.
abbrev split_hello : Pipe
split_hello = record {
  waits = (client_header 129 1 key 5 ++ (127 ∷ 159 ∷ [])) ∷ (77 ∷ []) ∷ (81 ∷ 88 ∷ 129 ∷ []) ∷ [];
  went = [];
}

abbrev hello_body : Body key hello (127 ∷ 159 ∷ []) ((77 ∷ []) ∷ (81 ∷ 88 ∷ 129 ∷ []) ∷ [])
hello_body = record {
  pieces = (127 ∷ 159 ∷ []) ∷ (77 ∷ []) ∷ [];
  last = 81 ∷ 88 ∷ [];
  ys = 129 ∷ [];
  rest = [];
  full = (omega arith, (omega arith, tt));
  bytes = refl;
  cut = refl;
}

abbrev silent : Pipe
silent = record { waits = []; went = [] }

ws_send-payload_example :
    let (value, w') = ws_send pipe true one_session silent 5 hello in
    (frame : List ℕ) × (w'.went ≡ [] ++ frame)
    × (value ≡ pos (length frame))
    × (w'.waits ≡ [])
    × ((rest : List ℕ) → text_payload (frame ++ rest) ≡ some (hello, rest))
ws_send-payload_example =
    ws_send-payload pipe pipe_law one_session silent 5 60 hello has_session (omega arith)

ws_read-Kept_example : Kept pipe pipe-KeepsRoom 3 (ws_read pipe one_session split_hello 5 3)
ws_read-Kept_example = ws_read-Kept pipe pipe-KeepsRoom one_session split_hello 5 3

-- A binary frame, and a ping with the payload "Hello".
abbrev binary : Pipe
binary = record { waits = (130 ∷ 129 ∷ key ++ (65 ∷ [])) ∷ []; went = [] }

ws_read-closes_example :
    let r = ws_read pipe one_session binary 5 4096 in
    (r.value ≡ pos 0)
    × (r.stored ≡ [])
    × (r.sessions.waits ≡ front (key ++ (65 ∷ [])) [])
    × ((frame : List ℕ) × (r.sessions.went ≡ [] ++ frame)
        × (close_reason frame ≡ some (closing_code 2, closing_reason 2)))
ws_read-closes_example =
    ws_read-closes pipe pipe_law 60 one_session binary 5 4096 130 129 (key ++ (65 ∷ [])) []
      has_session refl (ground arith) (ground arith)

abbrev pinged : Pipe
pinged = record { waits = (137 ∷ 133 ∷ key ++ masked key 0 hello) ∷ []; went = [] }

-- A message has its length as its tree, and the string "login" under every name.
abbrev pub lengths : Json (List ℕ) ℕ
lengths = record {
  parse = λ bytes. some (length bytes);
  get_string = λ root name. some "login";
  prints = λ m. true;
}

event-delivers_example :
    let (s', w') = m_handle_client_event lengths pipe one_session one_round split_hello 5 [] in
    (s' ≡ handle_client_event lengths one_round 5 (some hello)) × (w'.waits ≡ (129 ∷ []) ∷ [])
event-delivers_example =
    event-delivers lengths pipe pipe_law 60 55 250 33 61 72 (codes "ello") (127 ∷ 159 ∷ [])
      ((77 ∷ []) ∷ (81 ∷ 88 ∷ 129 ∷ []) ∷ []) hello_body one_session one_round split_hello 5 129 1
      [] has_session refl (omega arith) refl
