-- ===== src/Handshakes.antt =====
-- server/srcs/server/ssl_al_workers.c: the two rings through which the main thread hands sockets
-- to the handshake thread and gets them back. Each function below is what one thread does while
-- it has the lock of a ring, or between two locks.
pub mod Queue
pub mod Taking
pub mod Order
use zappy.Prelude.{
  ℕ, zero, suc, ◌+◌, ◌-◌, ◌%◌, ◌==◌, if◌then◌else◌, Bool, true, false, ◌&&◌, Option, none, some,
  List, [], ◌∷◌,
}

-- handshake_task_t
pub record HandshakeTask : Type 0 where
  pub fd : ℕ
  pub ssl : ℕ

-- The size of `task_fds_q` and `task_fds_dq`.
abbrev pub ring_size : ℕ
ring_size = 1024

-- One of the two rings: `task_fds_q`, `task_head_q` and `task_tail_q`, or the same with `dq`.
pub record Ring : Type 0 where
  pub tasks : ℕ → HandshakeTask
  pub head : ℕ
  pub tail : ℕ

-- The globals, and what the thread has: the task that it works on. The sockets that it has closed
-- are in `closed`, newest first.
pub record Pool : Type 0 where
  pub todo : Ring
  pub held : Option HandshakeTask
  pub done : Ring
  pub closed : List ℕ

abbrev pub no_task : HandshakeTask
no_task = record { fd = 0; ssl = 0 }

abbrev pub empty_ring : Ring
empty_ring = record { tasks = λ i. no_task; head = 0; tail = 0 }

-- The static variables at the start of the program.
abbrev pub empty_pool : Pool
empty_pool = record { todo = empty_ring; held = none; done = empty_ring; closed = [] }

-- A task goes into the slot of the tail, whether or not that catches up with the head.
unfoldable pub push : Ring → HandshakeTask → Ring
push r t = record {
  tasks = λ i. if i == r.tail then t else r.tasks i;
  head = r.head;
  tail = (r.tail + 1) % ring_size;
}

unfoldable pub pop : Ring → Option (HandshakeTask × Ring)
pop r =
    if r.head == r.tail
    then none
    else some (r.tasks r.head, record r { head = (r.head + 1) % ring_size })

-- It always returns 1.
unfoldable pub ssl_al_worker_queue : Pool → HandshakeTask → ℕ × Pool
unfolding push
ssl_al_worker_queue p t = (1, record p { todo = push p.todo t })

abbrev pub handed : Pool → Option (HandshakeTask × Ring) → Option (HandshakeTask × Pool)
handed p none = none
handed p (some (t, r)) = some (t, record p { done = r })

-- The task and the pool after it; `none` is the value 0.
unfoldable pub ssl_al_worker_dequeue : Pool → Option (HandshakeTask × Pool)
unfolding pop
ssl_al_worker_dequeue p = handed p (pop p.done)

-- The first lock of `handshake_worker`: `none` while it waits for a task, or has one already.
take_from : Pool → Option HandshakeTask → Option (HandshakeTask × Ring) → Option Pool
take_from p none (some (t, r)) = some (record p { todo = r; held = some t })
take_from p none none = none
take_from p (some t) got = none

unfoldable pub worker_take : Pool → Option Pool
unfolding pop take_from
worker_take p = take_from p p.held (pop p.todo)

-- The rest of a round of `handshake_worker`. `set_fd` and `accepts` tell whether `SSL_set_fd` and
-- `SSL_accept` succeed on a task.
module _ (set_fd accepts : HandshakeTask → Bool) where
  finish_held : Pool → Option HandshakeTask → Pool
  unfolding push
  finish_held p none = p
  finish_held p (some t) =
      if set_fd t && accepts t
      then record p { held = none; done = push p.done t }
      else record p { held = none; closed = t.fd ∷ p.closed }

  unfoldable pub worker_finish : Pool → Pool
  unfolding finish_held
  worker_finish p = finish_held p p.held

-- A round of the loop of `ssl_al_worker_dequeue_all`; `again` are the rounds after it.
abbrev pub hand_over :
    Pool
    → (Pool → List HandshakeTask × Pool)
    → Option (HandshakeTask × Pool)
    → List HandshakeTask × Pool
hand_over p again none = ([], p)
hand_over p again (some (t, p')) = let (ts, q) = again p' in (t ∷ ts, q)

-- The tasks that the loop gives to the callback, in order, and the pool after it. The ring holds
-- fewer tasks than it has slots, which is the fuel.
dequeue_loop : ℕ → Pool → List HandshakeTask × Pool
unfolding ssl_al_worker_dequeue
dequeue_loop zero p = ([], p)
dequeue_loop (suc fuel) p = hand_over p (λ q. dequeue_loop fuel q) (ssl_al_worker_dequeue p)

abbrev any_task : List HandshakeTask → ℕ
any_task [] = 0
any_task (t ∷ ts) = 1

-- What it returns, the tasks and the pool.
unfoldable pub ssl_al_worker_dequeue_all : Pool → (ℕ × List HandshakeTask) × Pool
unfolding dequeue_loop
ssl_al_worker_dequeue_all p = let (ts, q) = dequeue_loop ring_size p in ((any_task ts, ts), q)
