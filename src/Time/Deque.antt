-- ===== src/Time/Deque.antt =====
-- A valid event buffer of time_api.c behaves as a bounded double-ended queue of its events.
use native.Mathlib.Numerals.{add-one}
use zappy.Prelude.{
  ℕ, zero, suc, ◌+◌, ◌-◌, ◌%◌, ◌<◌, ◌≡◌, refl, ap, ◌≢◌, ◌⊎◌, inl, inr, Option, some, List, [], ◌∷◌,
  ◌++◌, String, success, error, arith, length, get_or, set, get_or-set_self, get_or-set_ne, leb,
  ◌==◌, leb→le, Bool-cases,
}
use zappy.Time.{
  Event, EventBuffer, TimeApi, max_events, zero_event, event_at, add_u64, new_exec_time,
  schedule_client_event, schedule_client_event_front, pop_head, put_head, put_tail,
}
use zappy.Time.Valid.{IsValid}

module _ {C : Type 0} (events : List (Event C)) where
  -- The `n` events from slot `h` on, going round at the end of the array.
  abbrev pub window : ℕ → ℕ → List (Event C)
  window h zero = []
  window h (suc n) = get_or events h zero_event ∷ window ((h + 1) % max_events) n

  length-window : (h n : ℕ) → length (window h n) ≡ n
  length-window h zero = refl
  length-window h (suc n) = ap suc (length-window ((h + 1) % max_events) n)

  window_of_pos :
      (h n : ℕ)
      → 0 < n
      → window h n ≡ get_or events h zero_event ∷ window ((h + 1) % max_events) (n - 1)
  window_of_pos h zero p = absurd (omega arith)
  window_of_pos h (suc n) p = ap (λ k. window h (suc k)) (omega arith)

module _ {C : Type 0} where
  -- The events that wait, the next one first.
  abbrev pub contents : EventBuffer C → List (Event C)
  contents b = window b.events b.head b.count

  pub length-contents : (b : EventBuffer C) → length (contents b) ≡ b.count
  length-contents b = length-window b.events b.head b.count

  -- A write to a slot outside of a window leaves the window alone.
  pub window-set_ne :
      (xs : List (Event C)) (e : Event C) (i n h : ℕ)
      → h < max_events
      → ((k : ℕ) → k < n → (h + k) % max_events ≢ i)
      → window (set xs i e) h n ≡ window xs h n
  window-set_ne xs e i zero h hh far = refl
  window-set_ne xs e i (suc n) h hh far = rw (
    get_or-set_ne xs i h e zero_event (λ q. far 0 (omega arith) (omega arith)),
    window-set_ne xs e i n ((h + 1) % max_events) (omega arith)
        (λ k hk q. far (k + 1) (omega arith) (omega arith)),
  )

  -- A write just behind a window extends it.
  window-set_end :
      (xs : List (Event C)) (e : Event C) (n h i : ℕ)
      → length xs ≡ max_events
      → h < max_events
      → n < max_events
      → i ≡ (h + n) % max_events
      → window (set xs i e) h (suc n) ≡ window xs h n ++ e ∷ []
  window-set_end xs e zero h i len hh hn p =
      let q : i ≡ h = omega arith in rw (q, get_or-set_self xs h e zero_event (omega arith))
  window-set_end xs e (suc n) h i len hh hn p = rw (
    get_or-set_ne xs i h e zero_event (λ q. omega arith),
    window-set_end xs e n ((h + 1) % max_events) i len (omega arith) (omega arith) (omega arith),
  )

  pub contents-put_tail :
      (b : EventBuffer C) (e : Event C)
      → IsValid b
      → b.count < max_events
      → contents (put_tail b e) ≡ contents b ++ e ∷ []
  contents-put_tail b e v h =
      rw add-one (window-set_end b.events e b.count b.head b.tail v.room v.head_lt h v.tail_eq)

  pub contents-put_head :
      (b : EventBuffer C) (e : Event C)
      → IsValid b
      → b.count < max_events
      → contents (put_head b e) ≡ e ∷ contents b
  contents-put_head b e v h =
      let i : ℕ = (b.head + max_events - 1) % max_events in
      rw
        (
          add-one,
          get_or-set_self b.events i e zero_event (omega arith),
          window-set_ne b.events e i b.count ((i + 1) % max_events) (omega arith)
              (λ k hk q. omega arith),
        )
        (ap (λ j. e ∷ window b.events j b.count) (omega arith))

  pub contents-pop_head :
      (b : EventBuffer C) → 0 < b.count → contents b ≡ event_at b b.head ∷ contents (pop_head b)
  contents-pop_head b h = window_of_pos b.events b.head b.count h

  -- What an appended event is made of.
  abbrev pub appended : TimeApi → EventBuffer C → ℕ → Option C → Option ℕ → Option String → Event C
  appended api b delay callback payload arg = record {
    exec_time = new_exec_time api b delay;
    callback = callback;
    payload = payload;
    arg = arg;
  }

  abbrev pub urgent : TimeApi → ℕ → Option C → Option ℕ → Option String → Event C
  urgent api delay callback payload arg = record {
    exec_time = add_u64 api.current_time_units delay;
    callback = callback;
    payload = payload;
    arg = arg;
  }

  -- `time_api_schedule_client_event` on a valid buffer and a running clock: it appends one event
  -- to the waiting ones, or reports an error and changes nothing if ten events wait already.
  pub schedule-appends :
      (api : TimeApi) (b : EventBuffer C) (delay : ℕ) (callback : Option C) (payload : Option ℕ)
      (arg : Option String)
      → IsValid b
      → let (status, b') = schedule_client_event (some api) b delay callback payload arg in
        ((length (contents b) < max_events)
          × (status ≡ success)
          × (contents b' ≡ contents b ++ appended api b delay callback payload arg ∷ []))
        ⊎ ((length (contents b) ≡ max_events) × (status ≡ error) × (b' ≡ b))
  unfolding schedule_client_event
  schedule-appends api b delay callback payload arg v = elim (Bool-cases (leb max_events b.count)) [
    | inl full ↦ rw full (inr (omega (arith, leb→le _ _ full, length-contents b), refl, refl))
    | inr room ↦
        rw room
          (inl (ground (arith, length-contents b), refl, contents-put_tail b _ v (ground arith)))
  ]

  -- `time_api_schedule_client_event_front`: it puts one event before the waiting ones, or
  -- reports an error and changes nothing if ten events wait already.
  pub schedule_front-prepends :
      (api : TimeApi) (b : EventBuffer C) (delay : ℕ) (callback : Option C) (payload : Option ℕ)
      (arg : Option String)
      → IsValid b
      → let (status, b') = schedule_client_event_front (some api) b delay callback payload arg in
        ((length (contents b) < max_events)
          × (status ≡ success)
          × (contents b' ≡ urgent api delay callback payload arg ∷ contents b))
        ⊎ ((length (contents b) ≡ max_events) × (status ≡ error) × (b' ≡ b))
  unfolding schedule_client_event_front
  schedule_front-prepends api b delay callback payload arg v =
      elim (Bool-cases (b.count == max_events)) [
        | inl full ↦ rw full (inr (ground (arith, length-contents b), refl, refl))
        | inr room ↦
            rw room (
              inl (ground (arith, length-contents b), refl, contents-put_head b _ v (ground arith)))
      ]
