-- ===== src/Handshakes/Queue.antt =====
-- The rings of ssl_al_workers.c as queues.
use zappy.Prelude.{
  ℕ, zero, suc, ◌+◌, ◌-◌, ◌%◌, ◌≤◌, ◌<◌, ◌≡◌, ◌≢◌, refl, sym, ap, ◌∙◌, ◌==◌, if◌then◌else◌, ◌⊎◌,
  inl, inr, none, some, List, [], ◌∷◌, ◌++◌, length, arith, Bool-cases, ==→eq, ==_self, ==_ne,
}
use zappy.Handshakes.{HandshakeTask, Ring, ring_size, push, pop}

abbrev pub items : (ℕ → HandshakeTask) → ℕ → ℕ → List HandshakeTask
items tasks head zero = []
items tasks head (suc n) = tasks head ∷ items tasks ((head + 1) % ring_size) n

-- The number of slots from the head on to the tail.
abbrev pub waiting : Ring → ℕ
waiting r = (r.tail + ring_size - r.head) % ring_size

-- The tasks in the order in which they are taken.
abbrev pub contents : Ring → List HandshakeTask
contents r = items r.tasks r.head (waiting r)

-- The two indices lie in the array.
abbrev pub InArray : Ring → Type 0
InArray r = (r.head < ring_size) × (r.tail < ring_size)

items-write :
    (tasks : ℕ → HandshakeTask) (t : HandshakeTask) (head tail n : ℕ)
    → head < ring_size
    → tail < ring_size
    → n ≤ (tail + ring_size - head) % ring_size
    → items (λ i. if i == tail then t else tasks i) head n ≡ items tasks head n
items-write tasks t head tail zero h k le = refl
items-write tasks t head tail (suc n) h k le =
    let differ : head ≢ tail = λ e. omega arith in
    let rest = items-write tasks t ((head + 1) % ring_size) tail n (omega arith) k (omega arith) in
    rw (==_ne head tail differ, rest) refl

items-last :
    (tasks : ℕ → HandshakeTask) (head n : ℕ)
    → head < ring_size
    → items tasks head (suc n) ≡ items tasks head n ++ (tasks ((head + n) % ring_size) ∷ [])
items-last tasks head zero h = ap (λ i. tasks i ∷ []) (omega arith)
items-last tasks head (suc n) h =
    let next : ((head + 1) % ring_size + n) % ring_size ≡ (head + suc n) % ring_size =
      omega arith in
    ap (λ l. tasks head ∷ l)
      (items-last tasks ((head + 1) % ring_size) n (omega arith)
        ∙ ap (λ i. items tasks ((head + 1) % ring_size) n ++ (tasks i ∷ [])) next)

pub length-items : (tasks : ℕ → HandshakeTask) (head n : ℕ) → length (items tasks head n) ≡ n
length-items tasks head zero = refl
length-items tasks head (suc n) = ap suc (length-items tasks ((head + 1) % ring_size) n)

-- A task is queued behind the others as long as fewer than 1023 wait.
pub contents-push :
    (r : Ring) (t : HandshakeTask)
    → InArray r
    → waiting r < 1023
    → InArray (push r t) × (contents (push r t) ≡ contents r ++ (t ∷ []))
unfolding push
contents-push r t (h, k) room =
    let written : ℕ → HandshakeTask = λ i. if i == r.tail then t else r.tasks i in
    let more : (((r.tail + 1) % ring_size) + ring_size - r.head) % ring_size ≡ suc (waiting r) =
      omega arith in
    let slot : (r.head + waiting r) % ring_size ≡ r.tail = omega arith in
    let last : written ((r.head + waiting r) % ring_size) ≡ t =
      ap written slot ∙ ap (λ b. if b then t else r.tasks r.tail) (==_self r.tail) in
    (
      (h, omega arith),
      ap (items written r.head) more
          ∙ items-last written r.head (waiting r) h
          ∙ ap (λ x. items written r.head (waiting r) ++ (x ∷ [])) last
          ∙ ap (λ l. l ++ (t ∷ []))
              (items-write r.tasks t r.head r.tail (waiting r) h k (omega arith)),
    )

-- The 1024th task makes the ring look empty.
pub push-full :
    (r : Ring) (t : HandshakeTask) → InArray r → waiting r ≡ 1023 → pop (push r t) ≡ none
unfolding push pop
push-full r t (h, k) full =
    let q = push r t in
    let same : r.head ≡ (r.tail + 1) % ring_size = omega arith in
    ap
      (λ b. if b then none else some (q.tasks q.head, record q { head = (q.head + 1) % ring_size }))
      (ap (λ i. r.head == i) (sym same) ∙ ==_self r.head)

pub pop-cases :
    (r : Ring)
    → InArray r
    → ((pop r ≡ none) × (contents r ≡ []))
      ⊎ ((t : HandshakeTask) × (r' : Ring) × (pop r ≡ some (t, r'))
          × InArray r'
          × (contents r ≡ t ∷ contents r')
          × (waiting r ≡ suc (waiting r')))
unfolding pop
pop-cases r (h, k) = elim (Bool-cases (r.head == r.tail)) [
  | inl e ↦
      let same = ==→eq r.head r.tail e in
      let nothing : waiting r ≡ 0 = omega arith in
      inl (
        ap
            (λ b.
              if b
              then none
              else some (r.tasks r.head, record r { head = (r.head + 1) % ring_size }))
            e,
        ap (items r.tasks r.head) nothing,
      )
  | inr e ↦
      let r' : Ring = record r { head = (r.head + 1) % ring_size } in
      let one : waiting r ≡ suc (waiting r') = ground arith in
      inr (
        r.tasks r.head,
        r',
        ap (λ b. if b then none else some (r.tasks r.head, r')) e,
        (omega arith, k),
        ap (items r.tasks r.head) one,
        one,
      )
]
