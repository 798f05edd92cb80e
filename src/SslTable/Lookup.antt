-- ===== src/SslTable/Lookup.antt =====
-- The hash table of ssl_table.c is a finite map from sockets to sessions.
use zappy.Prelude.{
  ℕ, ◌%◌, ◌≡◌, refl, sym, ap, ◌∙◌, inl, inr, true, false, ◌==◌, if◌then◌else◌, Option, none, some,
  List, [], ◌∷◌, some_inj, subst, success, error, arith, Bool-cases, ℕ-cases, Option-cases, ==_self,
  ==_ne,
}
use zappy.SslTable.{
  SslEntry, SslTable, hash_fd, ssl_table_init, set_bucket, replace_entry, insert_entry,
  ssl_table_add, store, find_entry, ssl_table_get, unlink_entry, ssl_table_remove,
}

-- No socket has two entries in a chain.
abbrev pub Unique : List SslEntry → Type 0
Unique [] = Unit {0}
Unique (e ∷ chain) = (find_entry e.fd chain ≡ none) × Unique chain

-- The table has been initialised and not freed, and no chain has two entries of a socket.
pub record IsReady (t : SslTable) : Type 0 where
  pub initialized : t.initialized ≡ true
  pub unique : (i : ℕ) → Unique (t.buckets i)

pub ssl_table_init-IsReady : IsReady ssl_table_init
unfolding ssl_table_init
ssl_table_init-IsReady = record { initialized = refl; unique = λ i. tt }

find-replace :
    (fd ssl k : ℕ) (chain rest : List SslEntry)
    → replace_entry fd ssl chain ≡ some rest
    → find_entry k rest ≡ (if fd == k then some ssl else find_entry k chain)
unfolding replace_entry find_entry
find-replace fd ssl k [] rest e = absurd (ground arith)
find-replace fd ssl k (x ∷ chain) rest e = elim (Bool-cases (x.fd == fd)) [
  | inl here ↦
      subst (λ r. find_entry k r ≡ (if fd == k then some ssl else find_entry k (x ∷ chain)))
        (some_inj (rw (here, replace_entry) at e)) (ground arith)
  | inr other ↦ elim (Option-cases (replace_entry fd ssl chain)) [
    | inl none_ ↦ absurd (ground (arith, rw (other, none_, replace_entry) at e))
    | inr (r, found) ↦
        subst (λ r. find_entry k r ≡ (if fd == k then some ssl else find_entry k (x ∷ chain)))
          (some_inj (rw (other, found, replace_entry) at e))
          (ground (arith, find-replace fd ssl k chain r found))
  ]
]

replace-none :
    (fd ssl : ℕ) (chain : List SslEntry)
    → replace_entry fd ssl chain ≡ none
    → find_entry fd chain ≡ none
unfolding replace_entry find_entry
replace-none fd ssl [] e = refl
replace-none fd ssl (x ∷ chain) e = elim (Bool-cases (x.fd == fd)) [
  | inl here ↦ absurd (ground (arith, rw (here, replace_entry) at e))
  | inr other ↦ elim (Option-cases (replace_entry fd ssl chain)) [
    | inl none_ ↦ rw other (replace-none fd ssl chain none_)
    | inr (r, found) ↦ absurd (ground (arith, rw (other, found, replace_entry) at e))
  ]
]

find-unlink :
    (fd k : ℕ) (chain : List SslEntry)
    → Unique chain
    → find_entry k (unlink_entry fd chain) ≡ (if fd == k then none else find_entry k chain)
unfolding unlink_entry find_entry
find-unlink fd k [] u = ground arith
find-unlink fd k (x ∷ chain) u = ground (arith, find-unlink fd k chain u.1, u.0)

replace-Unique :
    (fd ssl : ℕ) (chain rest : List SslEntry)
    → Unique chain
    → replace_entry fd ssl chain ≡ some rest
    → Unique rest
unfolding replace_entry find_entry
replace-Unique fd ssl [] rest u e = absurd (ground arith)
replace-Unique fd ssl (x ∷ chain) rest u e = elim (Bool-cases (x.fd == fd)) [
  | inl here ↦ subst Unique (some_inj (rw (here, replace_entry) at e)) u
  | inr other ↦ elim (Option-cases (replace_entry fd ssl chain)) [
    | inl none_ ↦ absurd (ground (arith, rw (other, none_, replace_entry) at e))
    | inr (r, found) ↦ subst Unique (some_inj (rw (other, found, replace_entry) at e)) (
      ground (arith, find-replace fd ssl x.fd chain r found, u.0),
      replace-Unique fd ssl chain r u.1 found,
    )
  ]
]

unlink-Unique : (fd : ℕ) (chain : List SslEntry) → Unique chain → Unique (unlink_entry fd chain)
unfolding unlink_entry find_entry
unlink-Unique fd [] u = tt
unlink-Unique fd (x ∷ chain) u = elim (Bool-cases (x.fd == fd)) [
  | inl here ↦ rw here u.1
  | inr other ↦
      rw other (ground (arith, find-unlink fd x.fd chain u.1, u.0), unlink-Unique fd chain u.1)
]

-- The chain that `ssl_table_add` leaves.
insert-find :
    (fd ssl : ℕ) (chain : List SslEntry)
    → Unique chain
    → (rest : List SslEntry) × (insert_entry true fd ssl chain (replace_entry fd ssl chain)
        ≡ some rest)
      × Unique rest
      × ((k : ℕ) → find_entry k rest ≡ (if fd == k then some ssl else find_entry k chain))
unfolding insert_entry find_entry
insert-find fd ssl chain u = elim (Option-cases (replace_entry fd ssl chain)) [
  | inl new ↦ (
    record { fd = fd; ssl = ssl } ∷ chain,
    rw new refl,
    (replace-none fd ssl chain new, u),
    λ k. refl,
  )
  | inr (r, found) ↦ (
    r,
    rw found refl,
    replace-Unique fd ssl chain r u found,
    λ k. find-replace fd ssl k chain r found,
  )
]

module _ (t : SslTable) (i : ℕ) (chain : List SslEntry) where
  set_bucket-Unique :
      ((j : ℕ) → Unique (t.buckets j))
      → Unique chain
      → (j : ℕ) → Unique ((set_bucket t i chain).buckets j)
  set_bucket-Unique old new j = elim (ℕ-cases i j) [
    | inl here ↦ rw (here, ==_self j) new
    | inr other ↦ rw (==_ne i j other) (old j)
  ]

  -- A look-up after a write to the bucket of `fd` that changes what is found for `fd` only.
  get-set_bucket :
      (fd k : ℕ) (v : Option ℕ)
      → t.initialized ≡ true
      → hash_fd t fd ≡ i
      → ((q : ℕ) → find_entry q chain ≡ (if fd == q then v else find_entry q (t.buckets i)))
      → ssl_table_get (set_bucket t i chain) k ≡ (if fd == k then v else ssl_table_get t k)
  unfolding ssl_table_get hash_fd
  get-set_bucket fd k v ready e h = elim (ℕ-cases i (k % t.bucket_count)) [
    | inl here ↦ rw (ready, ← here, ==_self i) (h k)
    | inr other ↦
        let differ : (fd == k) ≡ false =
          ==_ne fd k (λ same. other (sym e ∙ ap (λ q. q % t.bucket_count) same)) in
        rw (ready, ==_ne i (k % t.bucket_count) other, differ) refl
  ]

add_ready :
    (t : SslTable) (fd ssl : ℕ)
    → t.initialized ≡ true
    → ssl_table_add true t fd ssl
      ≡ store t (hash_fd t fd) (
          insert_entry true fd ssl
            (t.buckets (hash_fd t fd))
            (replace_entry fd ssl (t.buckets (hash_fd t fd))))
unfolding ssl_table_add
add_ready t fd ssl h =
    let chain = t.buckets (hash_fd t fd) in
    let result =
      store t (hash_fd t fd) (insert_entry true fd ssl chain (replace_entry fd ssl chain)) in
    ap (λ b. if b then result else (error, t)) h

remove_ready :
    (t : SslTable) (fd : ℕ)
    → t.initialized ≡ true
    → ssl_table_remove t fd
      ≡ set_bucket t (hash_fd t fd) (unlink_entry fd (t.buckets (hash_fd t fd)))
unfolding ssl_table_remove
remove_ready t fd h =
    let result = set_bucket t (hash_fd t fd) (unlink_entry fd (t.buckets (hash_fd t fd))) in
    ap (λ b. if b then result else t) h

-- `ssl_table_add` on a ready table, with memory: it succeeds, the socket has the given session
-- afterwards, every other socket the one that it had, and the table stays ready.
pub get-add :
    (t : SslTable) (fd ssl : ℕ)
    → IsReady t
    → let (status, t') = ssl_table_add true t fd ssl in
      (status ≡ success)
      × IsReady t'
      × ((k : ℕ) → ssl_table_get t' k ≡ (if fd == k then some ssl else ssl_table_get t k))
get-add t fd ssl r =
    let (rest, e, u, f) = insert-find fd ssl (t.buckets (hash_fd t fd)) (r.unique (hash_fd t fd)) in
    rw (add_ready t fd ssl r.initialized, e)
      (
        refl,
        record {
          initialized = r.initialized;
          unique = set_bucket-Unique t (hash_fd t fd) rest r.unique u;
        },
        λ k. get-set_bucket t (hash_fd t fd) rest fd k (some ssl) r.initialized refl f,
      )

-- `ssl_table_remove` on a ready table: the socket has no session afterwards, every other socket
-- the one that it had, and the table stays ready.
pub get-remove :
    (t : SslTable) (fd : ℕ)
    → IsReady t
    → let t' = ssl_table_remove t fd in
      IsReady t' × ((k : ℕ) → ssl_table_get t' k ≡ (if fd == k then none else ssl_table_get t k))
get-remove t fd r =
    let i = hash_fd t fd in
    let chain = t.buckets i in
    rw (remove_ready t fd r.initialized) (
      record {
        initialized = r.initialized;
        unique = set_bucket-Unique t i _ r.unique (unlink-Unique fd chain (r.unique i));
      },
      λ k.
          get-set_bucket t i (unlink_entry fd chain) fd k none r.initialized refl
            (λ q. find-unlink fd q chain (r.unique i)),
    )
