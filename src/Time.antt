-- ===== src/Time.antt =====
-- server/srcs/time_api/time_api.c, with the event types of server/srcs/game/game_structs.h.
-- `C` stands for the functions that an event can call. A null pointer is `none`; the argument
-- `api` of each function is the pointer that the C code resolves, `_api ? _api : m_time`.
pub mod Valid
pub mod Deque
pub mod Delay
pub mod Process
pub mod Clock
use zappy.Prelude.{
  ℕ, ◌+◌, ◌-◌, ◌*◌, ◌/◌, ◌%◌, ◌^◌, Bool, true, false, Option, none, some, List, [], String, Status,
  success, error, ltb, leb, ◌==◌, if◌then◌else◌, get_or, set, replicate,
}

-- MAX_EVENTS
abbrev pub max_events : ℕ
max_events = 10

-- `uint64_t` addition. A negative `int` that is added stands here as its conversion to `uint64_t`.
abbrev pub add_u64 : ℕ → ℕ → ℕ
add_u64 a b = (a + b) % 2 ^ 64

pub record Event (C : Type 0) : Type 0 where
  pub exec_time : ℕ
  pub callback : Option C
  pub payload : Option ℕ
  pub arg : Option String

pub record EventBuffer (C : Type 0) : Type 0 where
  pub events : List (Event C)
  pub count : ℕ
  pub head : ℕ
  pub tail : ℕ

pub record TimeApi : Type 0 where
  pub t : ℕ
  pub start_time_ms : ℕ
  pub current_time_units : ℕ

module _ {C : Type 0} where
  -- An event of zeroed memory.
  abbrev pub zero_event : Event C
  zero_event = record { exec_time = 0; callback = none; payload = none; arg = none }

  -- A buffer of zeroed memory.
  abbrev pub zero_buffer : EventBuffer C
  zero_buffer = record { events = replicate max_events zero_event; count = 0; head = 0; tail = 0 }

  abbrev pub event_at : EventBuffer C → ℕ → Event C
  event_at b i = get_or b.events i zero_event

  unfoldable pub is_event_buffer_full : EventBuffer C → Bool
  is_event_buffer_full b = b.count == max_events

  -- The execution time that a new event gets: the slot at the tail is read if the buffer is not
  -- empty, the clock if it is.
  unfoldable pub new_exec_time : TimeApi → EventBuffer C → ℕ → ℕ
  new_exec_time api b delay =
      if ltb 0 b.count
      then add_u64 (event_at b b.tail).exec_time delay
      else add_u64 api.current_time_units delay

  abbrev pub put_tail : EventBuffer C → Event C → EventBuffer C
  put_tail b e = record b {
    events = set b.events b.tail e;
    tail = (b.tail + 1) % max_events;
    count = b.count + 1;
  }

  unfoldable pub schedule_client_event :
      Option TimeApi
      → EventBuffer C
      → ℕ
      → Option C
      → Option ℕ
      → Option String
      → Status × EventBuffer C
  unfolding new_exec_time
  schedule_client_event none b delay callback payload arg = (error, b)
  schedule_client_event (some api) b delay callback payload arg =
      if leb max_events b.count then (error, b) else (
        success,
        put_tail b (record {
          exec_time = new_exec_time api b delay;
          callback = callback;
          payload = payload;
          arg = arg;
        }),
      )

  -- The new head is `(head - 1 + MAX_EVENTS) % MAX_EVENTS`, in an `int` that may be negative
  -- before the sum.
  abbrev pub put_head : EventBuffer C → Event C → EventBuffer C
  put_head b e =
      let h = (b.head + max_events - 1) % max_events in
      record b { events = set b.events h e; head = h; count = b.count + 1 }

  unfoldable pub schedule_client_event_front :
      Option TimeApi
      → EventBuffer C
      → ℕ
      → Option C
      → Option ℕ
      → Option String
      → Status × EventBuffer C
  unfolding is_event_buffer_full
  schedule_client_event_front none b delay callback payload arg = (error, b)
  schedule_client_event_front (some api) b delay callback payload arg =
      if is_event_buffer_full b then (error, b) else (
        success,
        put_head b (record {
          exec_time = add_u64 api.current_time_units delay;
          callback = callback;
          payload = payload;
          arg = arg;
        }),
      )

  unfoldable pub is_due : ℕ → EventBuffer C → Bool
  is_due now b = if ltb 0 b.count then leb (event_at b b.head).exec_time now else false

  abbrev pub pop_head : EventBuffer C → EventBuffer C
  pop_head b = record b { head = (b.head + 1) % max_events; count = b.count - 1 }

  -- `free(ev->arg); ev->arg = NULL` on the slot `i`.
  abbrev pub free_arg : EventBuffer C → ℕ → EventBuffer C
  free_arg b i = record b { events = set b.events i (record (event_at b i) { arg = none }) }

-- A buffer that stands in a larger state, and the effect of calling an event's function on it.
pub record Owner (C : Type 0) (S : Type 0) : Type 0 where
  pub buffer : S → EventBuffer C
  pub put : S → EventBuffer C → S
  pub call : C → Option ℕ → Option String → S → S

module _ {C S : Type 0} (o : Owner C S) where
  abbrev pub run_callback : Event C → S → S
  run_callback e s = elim e.callback [ none ↦ s | some c ↦ o.call c e.payload e.arg s ]

  -- `slot` is where the event stands, `head` the head after it was taken. The argument is freed
  -- unless the callback moved the head.
  unfoldable pub release_slot : ℕ → ℕ → S → S
  release_slot slot head s =
      if head == (o.buffer s).head then o.put s (free_arg (o.buffer s) slot) else s

  -- The event at the head, if it is due, is taken out and called.
  unfoldable pub process_client_events : Option TimeApi → S → Status × S
  unfolding is_due release_slot
  process_client_events none s = (error, s)
  process_client_events (some api) s =
      let b = o.buffer s in
      if is_due api.current_time_units b
      then (
        success,
        release_slot b.head (pop_head b).head
            (run_callback (event_at b b.head) (o.put s (pop_head b))),
      )
      else (success, s)

unfoldable pub time_api_init : ℕ → ℕ → TimeApi
time_api_init t clock_ms = record { t = t; start_time_ms = clock_ms; current_time_units = 0 }

-- The clock is monotonic, so the difference is not negative.
unfoldable pub get_current_time_units : Option TimeApi → ℕ → ℕ
get_current_time_units none clock_ms = 2 ^ 64 - 1
get_current_time_units (some api) clock_ms = (clock_ms - api.start_time_ms) * api.t / 1000 % 2 ^ 64

unfoldable pub time_api_update : Option TimeApi → ℕ → Status × Option TimeApi
unfolding get_current_time_units
time_api_update none clock_ms = (error, none)
time_api_update (some api) clock_ms =
    (success, some (record api { current_time_units = get_current_time_units (some api) clock_ms }))
