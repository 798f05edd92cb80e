-- ===== src/Time/Valid.antt =====
-- The shape of an event buffer, and what of it each operation of time_api.c keeps.
use zappy.Prelude.{
  ℕ, ◌+◌, ◌-◌, ◌%◌, ◌≤◌, ◌<◌, ◌≡◌, inl, inr, Option, none, some, String, arith, length, length-set,
  leb, ◌==◌, Bool-cases,
}
use zappy.Time.{
  Event, EventBuffer, TimeApi, max_events, zero_buffer, schedule_client_event,
  schedule_client_event_front, put_tail, put_head, pop_head, free_arg, event_at,
}

pub record IsValid {C : Type 0} (b : EventBuffer C) : Type 0 where
  pub room : length b.events ≡ max_events
  pub count_le : b.count ≤ max_events
  pub head_lt : b.head < max_events
  pub tail_eq : b.tail ≡ (b.head + b.count) % max_events

module _ {C : Type 0} where
  pub zero_buffer-IsValid : IsValid (zero_buffer {C = C})
  zero_buffer-IsValid = omega arith

  pub put_tail-IsValid :
      (b : EventBuffer C) (e : Event C) → IsValid b → b.count < max_events → IsValid (put_tail b e)
  put_tail-IsValid b e v h = ground (arith, length-set b.events b.tail e)

  pub put_head-IsValid :
      (b : EventBuffer C) (e : Event C) → IsValid b → b.count < max_events → IsValid (put_head b e)
  put_head-IsValid b e v h =
      ground (arith, length-set b.events ((b.head + max_events - 1) % max_events) e)

  -- `time_api_schedule_client_event` keeps a valid buffer valid, whether it appends an event or
  -- returns an error.
  pub schedule-IsValid :
      (api : Option TimeApi) (b : EventBuffer C) (delay : ℕ) (callback : Option C)
      (payload : Option ℕ) (arg : Option String)
      → IsValid b
      → IsValid (schedule_client_event api b delay callback payload arg).1
  unfolding schedule_client_event
  schedule-IsValid none b delay callback payload arg v = v
  schedule-IsValid (some api) b delay callback payload arg v =
      elim (Bool-cases (leb max_events b.count)) [
        | inl full ↦ rw full v
        | inr room ↦ rw room (put_tail-IsValid b _ v (ground arith))
      ]

  pub schedule_front-IsValid :
      (api : Option TimeApi) (b : EventBuffer C) (delay : ℕ) (callback : Option C)
      (payload : Option ℕ) (arg : Option String)
      → IsValid b
      → IsValid (schedule_client_event_front api b delay callback payload arg).1
  unfolding schedule_client_event_front
  schedule_front-IsValid none b delay callback payload arg v = v
  schedule_front-IsValid (some api) b delay callback payload arg v =
      elim (Bool-cases (b.count == max_events)) [
        | inl full ↦ rw full v
        | inr room ↦ rw room (put_head-IsValid b _ v (ground arith))
      ]

  pub pop_head-IsValid : (b : EventBuffer C) → IsValid b → 0 < b.count → IsValid (pop_head b)
  pop_head-IsValid b v h = ground arith

  pub free_arg-IsValid : (b : EventBuffer C) (i : ℕ) → IsValid b → IsValid (free_arg b i)
  free_arg-IsValid b i v =
      ground (arith, length-set b.events i (record (event_at b i) { arg = none }))
