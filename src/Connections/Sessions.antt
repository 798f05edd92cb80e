-- ===== src/Connections/Sessions.antt =====
-- The table of sessions as clients come and go.
use zappy.Prelude.{
  ℕ, ◌≡◌, ◌≢◌, refl, sym, ap, ◌∙◌, ◌==◌, if◌then◌else◌, Bool, true, false, inl, inr, Option, none,
  some, List, [], ◌∷◌, arith, Bool-cases, Option-cases, success, ℕ-cases, ==_self, ==_ne, subst,
}
use zappy.SslTable.{SslTable, ssl_table_add, ssl_table_get}
use zappy.SslTable.Lookup.{IsReady, get-add, get-remove}
use zappy.WebSocket.{Ssl}
use zappy.Handshakes.{HandshakeTask, ssl_al_worker_dequeue_all}
use zappy.Board.Chain.{elem}
use zappy.Connections.{
  Layer, unlisted, ws_close, on_handshake_done, added, greet, give_up, greet_all,
  ssl_al_lookup_new_clients,
}

module _ {W : Type 0} where
  -- `ws_close` on a socket, with a table that is in use: it succeeds, the socket is closed and has
  -- no session any more, and every other socket keeps its session.
  pub ws_close-forgets :
      (s : Layer W) (fd : ℕ)
      → IsReady s.table
      → let (status, s') = ws_close s (some fd) in
        (status ≡ success)
        × (s'.closed ≡ fd ∷ s.closed)
        × IsReady s'.table
        × ((k : ℕ) → ssl_table_get s'.table k ≡ (if fd == k then none else ssl_table_get s.table k))
  unfolding ws_close
  ws_close-forgets s fd ready = elim (Option-cases (ssl_table_get s.table fd)) [
    | inl missing ↦ rw (ap (unlisted s.table fd) missing) (
      refl,
      refl,
      ready,
      λ k. elim (ℕ-cases fd k) [
        | inl e ↦ rw (← e, ==_self fd) missing
        | inr other ↦ rw (==_ne fd k other) refl
      ],
    )
    | inr (ssl, found) ↦
        let (ready', gets) = get-remove s.table fd ready in
        rw (ap (unlisted s.table fd) found) (refl, refl, ready', gets)
  ]

told_or_own :
    (t : SslTable) (fd k : ℕ) (fds : List ℕ) (greeted : Bool)
    → ssl_table_get t fd ≢ none
    → (elem k fds ≡ true → ssl_table_get t k ≢ none)
    → elem k (if greeted then fd ∷ fds else fds) ≡ true
    → ssl_table_get t k ≢ none
told_or_own t fd k fds false own told h = told h
told_or_own t fd k fds true own told h = elim (ℕ-cases fd k) [
  | inl e ↦ subst (λ q. ssl_table_get t q ≢ none) e own
  | inr other ↦ told (ground (arith, h, other))
]

module _ (digest : List ℕ → List ℕ) {W : Type 0} (net : Ssl W) where
  -- What a task leaves in the table, whatever comes of the greeting.
  abbrev Registers : Layer W → HandshakeTask → Layer W → Type 0
  Registers s t s' =
      IsReady s'.table
      × ((k : ℕ)
          → ssl_table_get s'.table k ≡ (if t.fd == k then some t.ssl else ssl_table_get s.table k))

  greet-table :
      (s : Layer W) (fd ssl : ℕ) (got : Option (List ℕ) × W)
      → (greet digest net s fd ssl got).1.table ≡ s.table
  unfolding greet give_up
  greet-table s fd ssl (none, w) = refl
  greet-table s fd ssl (some [], w) = refl
  greet-table s fd ssl (some (b ∷ bs), w) = refl

  done_as_greet :
      (s : Layer W) (t : HandshakeTask)
      → IsReady s.table
      → (table' : SslTable) × (on_handshake_done digest net true s t
          ≡ greet digest net
              (record s { table = table' })
              t.fd
              t.ssl
              (net.ssl_read s.sessions t.ssl 4095))
        × IsReady table'
        × ((k : ℕ)
            → ssl_table_get table' k ≡ (if t.fd == k then some t.ssl else ssl_table_get s.table k))
  unfolding on_handshake_done added
  done_as_greet s t ready =
      let (status, ready', gets) = get-add s.table t.fd t.ssl ready in
      let table' = (ssl_table_add true s.table t.fd t.ssl).1 in
      let result : ssl_table_add true s.table t.fd t.ssl ≡ (success, table') =
        ap (λ q. (q, table')) status in
      (table', ap (added digest net s t.fd t.ssl) result, ready', gets)

  on_handshake_done-Registers :
      (s : Layer W) (t : HandshakeTask)
      → IsReady s.table
      → Registers s t (on_handshake_done digest net true s t).1
  on_handshake_done-Registers s t ready =
      let (table', same, ready', gets) = done_as_greet s t ready in
      let kept =
        greet-table (record s { table = table' }) t.fd t.ssl (net.ssl_read s.sessions t.ssl 4095) in
      rw (same, kept) (ready', gets)

  -- `on_handshake_done`, with memory and a table that is in use, on a client whose first read
  -- fails: the callback is not called and the socket is closed, but the table keeps a session for
  -- the socket.
  pub on_handshake_done-keeps_closed :
      (s : Layer W) (t : HandshakeTask)
      → IsReady s.table
      → (net.ssl_read s.sessions t.ssl 4095).0 ≡ none
      → let (greeted, s') = on_handshake_done digest net true s t in
        (greeted ≡ false)
        × (s'.closed ≡ t.fd ∷ s.closed)
        × (ssl_table_get s'.table t.fd ≡ some t.ssl)
  unfolding greet give_up
  on_handshake_done-keeps_closed s t ready fails =
      let (table', same, ready', gets) = done_as_greet s t ready in
      let w = (net.ssl_read s.sessions t.ssl 4095).1 in
      let read : net.ssl_read s.sessions t.ssl 4095 ≡ (none, w) = ap (λ q. (q, w)) fails in
      rw (same ∙ ap (greet digest net (record s { table = table' }) t.fd t.ssl) read) (
        refl,
        refl,
        gets t.fd ∙ ap (λ b. if b then some t.ssl else ssl_table_get s.table t.fd) (==_self t.fd),
      )

  keeps : (old : Option ℕ) (fd ssl k : ℕ) → old ≢ none → (if fd == k then some ssl else old) ≢ none
  keeps old fd ssl k h = elim (Bool-cases (fd == k)) [
    | inl e ↦ rw e (λ q. absurd (ground arith))
    | inr e ↦ rw e h
  ]

  -- What holds after some tasks: the table is in use, no socket has lost its session, and all
  -- sockets that the server is told of have one.
  abbrev pub Served : Layer W → List ℕ × Layer W → Type 0
  Served s r =
      IsReady r.1.table
      × ((k : ℕ) → ssl_table_get s.table k ≢ none → ssl_table_get r.1.table k ≢ none)
      × ((k : ℕ) → elem k r.0 ≡ true → ssl_table_get r.1.table k ≢ none)

  greet_all-Served :
      (tasks : List HandshakeTask) (s : Layer W)
      → IsReady s.table
      → Served s (greet_all digest net true s tasks)
  unfolding greet_all
  greet_all-Served [] s ready = (ready, λ k h. h, λ k h. absurd (ground arith))
  greet_all-Served (t ∷ ts) s ready =
      let (greeted, s1) = on_handshake_done digest net true s t in
      let (ready1, gets) = on_handshake_done-Registers s t ready in
      let (ready2, kept, told) = greet_all-Served ts s1 ready1 in
      let fds = (greet_all digest net true s1 ts).0 in
      let table2 = (greet_all digest net true s1 ts).1.table in
      let own : ssl_table_get table2 t.fd ≢ none = kept t.fd (λ e. absurd (
        ground (
          arith,
          sym (
                gets t.fd
                ∙ ap (λ b. if b then some t.ssl else ssl_table_get s.table t.fd) (==_self t.fd))
              ∙ e,
        ))) in
      (
        ready2,
        λ k h. kept k (rw (gets k) (keeps (ssl_table_get s.table k) t.fd t.ssl k h)),
        λ k h. told_or_own table2 t.fd k fds greeted own (told k) h,
      )

  -- `ssl_al_lookup_new_clients`, with memory and a table that is in use: every socket that the
  -- server is told of has a session afterwards, every socket that had one still has one, and the
  -- table stays in use.
  pub lookup_new_clients-Served :
      (s : Layer W)
      → IsReady s.table
      → let ((value, fds), s') = ssl_al_lookup_new_clients digest net true s in Served s (fds, s')
  unfolding ssl_al_lookup_new_clients
  lookup_new_clients-Served s ready =
      let ((value, tasks), p) = ssl_al_worker_dequeue_all s.pool in
      greet_all-Served (if s.callback then tasks else []) (record s { pool = p }) ready
