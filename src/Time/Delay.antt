-- ===== src/Time/Delay.antt =====
-- When an event scheduled by time_api.c runs: the delay of an event that joins others.
use native.Mathlib.Nat.{mod-eq_of_lt}
use zappy.Prelude.{ℕ, ◌+◌, ◌^◌, ◌<◌, ◌≡◌, List, map}
use zappy.Time.{EventBuffer, TimeApi, new_exec_time}
use zappy.Time.Deque.{contents}

module _ {C : Type 0} where
  abbrev pub exec_times : EventBuffer C → List ℕ
  exec_times b = map (λ e. e.exec_time) (contents b)

  -- The first event of an empty buffer runs `delay` units after the clock, as time_api.h says.
  pub first-waits :
      (api : TimeApi) (b : EventBuffer C) (delay : ℕ)
      → b.count ≡ 0
      → api.current_time_units + delay < 2 ^ 64
      → new_exec_time api b delay ≡ api.current_time_units + delay
  unfolding new_exec_time
  first-waits api b delay e h = rw e (mod-eq_of_lt h)
