-- ===== src/Handshakes/Taking.antt =====
-- How the main thread takes tasks out of the second ring.
use zappy.Prelude.{suc, ◌≡◌, ap, ◌⊎◌, inl, inr, none, some, [], ◌∷◌}
use zappy.Handshakes.{HandshakeTask, Ring, Pool, ssl_al_worker_dequeue, handed}
use zappy.Handshakes.Queue.{waiting, contents, InArray, pop-cases}

pub dequeue-cases :
    (p : Pool)
    → InArray p.done
    → ((ssl_al_worker_dequeue p ≡ none) × (contents p.done ≡ []))
      ⊎ ((t : HandshakeTask) × (r : Ring) × (ssl_al_worker_dequeue p
            ≡ some (t, record p { done = r }))
          × InArray r
          × (contents p.done ≡ t ∷ contents r)
          × (waiting p.done ≡ suc (waiting r)))
unfolding ssl_al_worker_dequeue
dequeue-cases p done = elim (pop-cases p.done done) [
  | inl (empty, nothing) ↦ inl (ap (handed p) empty, nothing)
  | inr (t, r, found, inside, front, one) ↦ inr (t, r, ap (handed p) found, inside, front, one)
]
