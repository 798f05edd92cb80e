-- ===== src/Tests/Clocks.antt =====
-- The theorems on the event buffers and the clock, at small buffers.
use zappy.Prelude.{ℕ, ◌≡◌, ◌⊎◌, ◌<◌, ◌++◌, some, none, List, [], ◌∷◌, success, error, length}
use zappy.Time.{EventBuffer, TimeApi, Owner, max_events, zero_buffer, schedule_client_event}
use zappy.Time.Valid.{IsValid, zero_buffer-IsValid, schedule-IsValid}
use zappy.Time.Deque.{contents, appended, schedule-appends}

-- A clock at 50 units.
abbrev clock : TimeApi
clock = record { t = 100; start_time_ms = 0; current_time_units = 50 }

-- A buffer with one event, called by number.
abbrev one_waits : EventBuffer ℕ
unfolding schedule_client_event
one_waits = (schedule_client_event (some clock) zero_buffer 7 (some 1) none none).1

one_waits-IsValid : IsValid one_waits
unfolding schedule_client_event
one_waits-IsValid =
    schedule-IsValid (some clock) zero_buffer 7 (some 1) none none zero_buffer-IsValid

schedule-appends_example :
    let (status, b') = schedule_client_event (some clock) one_waits 3 (some 2) none none in
    ((length (contents one_waits) < max_events)
      × (status ≡ success)
      × (contents b' ≡ contents one_waits ++ appended clock one_waits 3 (some 2) none none ∷ []))
    ⊎ ((length (contents one_waits) ≡ max_events) × (status ≡ error) × (b' ≡ one_waits))
schedule-appends_example = schedule-appends clock one_waits 3 (some 2) none none one_waits-IsValid

-- A state that is a buffer and the list of the numbers that were called.
abbrev caller : Owner ℕ (EventBuffer ℕ × List ℕ)
caller = record {
  buffer = λ s. s.0;
  put = λ s b. (b, s.1);
  call = λ c payload arg s. (s.0, c ∷ s.1);
}

abbrev late : TimeApi
late = record clock { current_time_units = 60 }
