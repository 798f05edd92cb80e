-- ===== src/Handshakes/Order.antt =====
-- The order in which sockets pass through the two rings, whatever the threads do in turn.
use zappy.Prelude.{
  ◌<◌, ◌≡◌, refl, sym, ap, ◌∙◌, if◌then◌else◌, Bool, ◌&&◌, inl, inr, Option, none, some, List, [],
  ◌∷◌, ◌++◌, arith, Bool-cases, some_inj, subst, append_assoc,
}
use zappy.Handshakes.{
  HandshakeTask, Pool, empty_pool, pop, ssl_al_worker_queue, ssl_al_worker_dequeue, worker_take,
  take_from, worker_finish, finish_held,
}
use zappy.Handshakes.Taking.{dequeue-cases}
use zappy.Handshakes.Queue.{waiting, contents, InArray, contents-push, pop-cases}

module _ (set_fd accepts : HandshakeTask → Bool) where
  -- The tasks on which the handshake succeeds.
  abbrev pub succeeds : List HandshakeTask → List HandshakeTask
  succeeds [] = []
  succeeds (t ∷ ts) = if set_fd t && accepts t then t ∷ succeeds ts else succeeds ts

  abbrev pub held_tasks : Option HandshakeTask → List HandshakeTask
  held_tasks none = []
  held_tasks (some t) = t ∷ []

  -- What the two threads can do from the start of the program on, in any order: the tasks that the
  -- main thread has queued, those that it has taken out again, and the pool. No ring is ever
  -- filled up to its last slot.
  pub data Runs : List HandshakeTask → List HandshakeTask → Pool → Type 0 where
    start : Runs [] [] empty_pool
    queues :
        {queued out : List HandshakeTask} {p : Pool} (t : HandshakeTask)
        → waiting p.todo < 1023
        → Runs queued out p
        → Runs (queued ++ (t ∷ [])) out (ssl_al_worker_queue p t).1
    takes :
        {queued out : List HandshakeTask} {p : Pool} (p' : Pool)
        → worker_take p ≡ some p'
        → Runs queued out p
        → Runs queued out p'
    finishes :
        {queued out : List HandshakeTask} {p : Pool}
        → waiting p.done < 1023
        → Runs queued out p
        → Runs queued out (worker_finish set_fd accepts p)
    dequeues :
        {queued out : List HandshakeTask} {p : Pool} (t : HandshakeTask) (p' : Pool)
        → ssl_al_worker_dequeue p ≡ some (t, p')
        → Runs queued out p
        → Runs queued (out ++ (t ∷ [])) p'

  -- The tasks between the two calls of the main thread, oldest first.
  abbrev pub between : Pool → List HandshakeTask
  between p = contents p.done ++ succeeds (held_tasks p.held ++ contents p.todo)

  abbrev pub BothInArray : Pool → Type 0
  BothInArray p = InArray p.todo × InArray p.done

  succeeds-append : (xs ys : List HandshakeTask) → succeeds (xs ++ ys) ≡ succeeds xs ++ succeeds ys
  succeeds-append [] ys = refl
  succeeds-append (t ∷ xs) ys = elim (Bool-cases (set_fd t && accepts t)) [
    | inl ok ↦ rw ok (ap (λ l. t ∷ l) (succeeds-append xs ys))
    | inr no_ ↦ rw no_ (succeeds-append xs ys)
  ]

  abbrev Good : List HandshakeTask → List HandshakeTask → Pool → Type 0
  Good queued out p = BothInArray p × (succeeds queued ≡ out ++ between p)

  queue-Good :
      (queued out : List HandshakeTask) (p : Pool) (t : HandshakeTask)
      → waiting p.todo < 1023
      → Good queued out p
      → Good (queued ++ (t ∷ [])) out (ssl_al_worker_queue p t).1
  unfolding ssl_al_worker_queue
  queue-Good queued out p t room ((todo, done), order) =
      let (todo', behind) = contents-push p.todo t todo room in
      let before = held_tasks p.held ++ contents p.todo in
      (
        (todo', done),
        succeeds-append queued (t ∷ [])
            ∙ ap (λ l. l ++ succeeds (t ∷ [])) order
            ∙ append_assoc out (between p) (succeeds (t ∷ []))
            ∙ ap (λ l. out ++ l)
                (append_assoc (contents p.done) (succeeds before) (succeeds (t ∷ []))
                  ∙ ap (λ l. contents p.done ++ l)
                      (sym (succeeds-append before (t ∷ []))
                        ∙ ap succeeds (
                            append_assoc (held_tasks p.held) (contents p.todo) (t ∷ [])
                            ∙ ap (λ l. held_tasks p.held ++ l) (sym behind)))),
      )

  take_from-Good :
      (queued out : List HandshakeTask) (p p' : Pool) (held : Option HandshakeTask)
      → p.held ≡ held
      → take_from p held (pop p.todo) ≡ some p'
      → Good queued out p
      → Good queued out p'
  unfolding take_from
  take_from-Good queued out p p' (some t) e took good = absurd (ground arith)
  take_from-Good queued out p p' none e took ((todo, done), order) = elim (pop-cases p.todo todo) [
    | inl (empty, _) ↦
        let nothing : none ≡ some p' = ap (take_from p none) (sym empty) ∙ took in
        absurd (ground arith)
    | inr (t, r, found, todo', front, _) ↦
        subst (Good queued out) (some_inj (ap (take_from p none) (sym found) ∙ took)) (
          (todo', done),
          order
              ∙ ap (λ h. out ++ (contents p.done ++ succeeds (held_tasks h ++ contents p.todo))) e
              ∙ ap (λ l. out ++ (contents p.done ++ succeeds l)) front,
        )
  ]

  take-Good :
      (queued out : List HandshakeTask) (p p' : Pool)
      → worker_take p ≡ some p'
      → Good queued out p
      → Good queued out p'
  unfolding worker_take
  take-Good queued out p p' took good = take_from-Good queued out p p' p.held refl took good

  finish_held-Good :
      (queued out : List HandshakeTask) (p : Pool) (held : Option HandshakeTask)
      → p.held ≡ held
      → waiting p.done < 1023
      → Good queued out p
      → Good queued out (finish_held set_fd accepts p held)
  unfolding finish_held
  finish_held-Good queued out p none e room good = good
  finish_held-Good queued out p (some t) e room ((todo, done), order) =
      let (done', behind) = contents-push p.done t done room in
      let known =
        order
        ∙ ap (λ h. out ++ (contents p.done ++ succeeds (held_tasks h ++ contents p.todo))) e in
      elim (Bool-cases (set_fd t && accepts t)) [
        | inl ok ↦ rw ok (
          (todo, done'),
          rw ok at known
              ∙ ap (λ l. out ++ l)
                  (sym (append_assoc (contents p.done) (t ∷ []) (succeeds (contents p.todo)))
                    ∙ ap (λ l. l ++ succeeds (contents p.todo)) (sym behind)),
        )
        | inr bad ↦ rw bad ((todo, done), rw bad at known)
      ]

  finish-Good :
      (queued out : List HandshakeTask) (p : Pool)
      → waiting p.done < 1023
      → Good queued out p
      → Good queued out (worker_finish set_fd accepts p)
  unfolding worker_finish
  finish-Good queued out p room good = finish_held-Good queued out p p.held refl room good

  dequeue-Good :
      (queued out : List HandshakeTask) (p p' : Pool) (t : HandshakeTask)
      → ssl_al_worker_dequeue p ≡ some (t, p')
      → Good queued out p
      → Good queued (out ++ (t ∷ [])) p'
  dequeue-Good queued out p p' t took ((todo, done), order) = elim (dequeue-cases p done) [
    | inl (empty, _) ↦
        let nothing : none ≡ some (t, p') = sym empty ∙ took in absurd (ground (arith, nothing))
    | inr (t1, r, found, done', front, _) ↦
        let same : (t1, record p { done = r }) ≡ (t, p') = some_inj (sym found ∙ took) in
        subst (λ q. Good queued (out ++ (q.0 ∷ [])) q.1) same
          (
            (todo, done'),
            order
                ∙ ap (λ l. out ++ (l ++ succeeds (held_tasks p.held ++ contents p.todo))) front
                ∙ sym (append_assoc out (t1 ∷ []) (between (record p { done = r }))),
          )
  ]

  Runs-Good : (queued out : List HandshakeTask) (p : Pool) → Runs queued out p → Good queued out p
  Runs-Good _ _ _ start = (((omega arith, omega arith), (omega arith, omega arith)), refl)
  Runs-Good _ _ _ (queues {queued = q} {out = o} {p = p} t room run) =
      queue-Good q o p t room (Runs-Good q o p run)
  Runs-Good _ _ _ (takes {queued = q} {out = o} {p = p} p' took run) =
      take-Good q o p p' took (Runs-Good q o p run)
  Runs-Good _ _ _ (finishes {queued = q} {out = o} {p = p} room run) =
      finish-Good q o p room (Runs-Good q o p run)
  Runs-Good _ _ _ (dequeues {queued = q} {out = o} {p = p} t p' took run) =
      dequeue-Good q o p p' t took (Runs-Good q o p run)

  -- As long as neither ring is filled up, whatever the threads do in turn: the sockets that the
  -- main thread has taken out, followed by those that are on the way, are the queued sockets whose
  -- handshake succeeds, each once and in the order in which they were queued.
  pub Runs-in_order :
      (queued out : List HandshakeTask) (p : Pool)
      → Runs queued out p
      → succeeds queued ≡ out ++ between p
  Runs-in_order queued out p run = (Runs-Good queued out p run).1
