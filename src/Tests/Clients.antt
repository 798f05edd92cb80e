-- ===== src/Tests/Clients.antt =====
-- The theorems on the handshakes and the table of sessions, at a few sockets.
use zappy.Prelude.{
  ℕ, ◌≡◌, refl, ◌==◌, if◌then◌else◌, Bool, true, false, none, some, List, [], ◌∷◌, ◌++◌, arith,
  codes, success,
}
use zappy.SslTable.{ssl_table_get}
use zappy.SslTable.Lookup.{IsReady}
use zappy.Handshakes.{
  HandshakeTask, Pool, empty_pool, ssl_al_worker_queue, worker_take, worker_finish,
  ssl_al_worker_dequeue, push, pop,
}
use zappy.Handshakes.Order.{Runs, start, queues, takes, finishes, succeeds, between, Runs-in_order}
use zappy.Connections.{Layer, ws_close, on_handshake_done, ssl_al_lookup_new_clients, key_name}
use zappy.Connections.Sessions.{
  ws_close-forgets, on_handshake_done-keeps_closed, lookup_new_clients-Served, Served,
}
use zappy.Tests.Sockets.{one_session, one_session-IsReady}
use zappy.Tests.Frames.{Pipe, pipe}

-- Sockets 5 and 6 are queued; only the handshake of the second one succeeds.
abbrev pub first_task : HandshakeTask
first_task = record { fd = 5; ssl = 60 }

abbrev pub second_task : HandshakeTask
second_task = record { fd = 6; ssl = 61 }

abbrev pub accepts : HandshakeTask → Bool
accepts t = t.fd == 6

abbrev pub always : HandshakeTask → Bool
always t = true

abbrev pub both_queued : Pool
both_queued = (ssl_al_worker_queue (ssl_al_worker_queue empty_pool first_task).1 second_task).1

abbrev pub after_take : Pool → Pool
after_take p = elim (worker_take p) [ none ↦ p | some p' ↦ p' ]

abbrev pub one_failed : Pool
one_failed = worker_finish always accepts (after_take both_queued)

abbrev pub one_done : Pool
one_done = worker_finish always accepts (after_take one_failed)

both_run : Runs always accepts (first_task ∷ second_task ∷ []) [] one_done
unfolding ssl_al_worker_queue worker_take worker_finish ssl_al_worker_dequeue push pop
both_run = finishes (omega arith) (
    takes (after_take one_failed) refl (
      finishes (omega arith) (
        takes (after_take both_queued) refl
          (queues second_task (omega arith) (queues first_task (omega arith) start)))))

Runs-in_order_example :
    succeeds always accepts (first_task ∷ second_task ∷ []) ≡ [] ++ between always accepts one_done
Runs-in_order_example =
    Runs-in_order always accepts (first_task ∷ second_task ∷ []) [] one_done both_run

abbrev pub layer : Layer Pipe
layer = record {
  sock_server = some 3;
  context = true;
  callback = true;
  table = one_session;
  pool = one_done;
  sessions = record { waits = []; went = [] };
  closed = [];
}

ws_close-forgets_example :
    let (status, s') = ws_close layer (some 5) in
    (status ≡ success)
    × (s'.closed ≡ 5 ∷ [])
    × IsReady s'.table
    × ((k : ℕ) → ssl_table_get s'.table k ≡ (if 5 == k then none else ssl_table_get one_session k))
ws_close-forgets_example = ws_close-forgets layer 5 one_session-IsReady

-- A digest that gives the text back.
abbrev no_digest : List ℕ → List ℕ
no_digest text = text

on_handshake_done-keeps_closed_example :
    let (greeted, s') = on_handshake_done no_digest pipe true layer second_task in
    (greeted ≡ false) × (s'.closed ≡ 6 ∷ []) × (ssl_table_get s'.table 6 ≡ some 61)
on_handshake_done-keeps_closed_example =
    on_handshake_done-keeps_closed no_digest pipe layer second_task one_session-IsReady refl

lookup_new_clients-Served_example :
    let ((value, fds), s') = ssl_al_lookup_new_clients no_digest pipe true layer in
    Served no_digest pipe layer (fds, s')
lookup_new_clients-Served_example =
    lookup_new_clients-Served no_digest pipe layer one_session-IsReady

abbrev key_line : List ℕ
key_line = key_name ++ (codes "dGhl" ++ (13 ∷ 10 ∷ []))

abbrev request : List ℕ
request = codes "GET / HTTP/1.1" ++ (13 ∷ 10 ∷ key_line)
