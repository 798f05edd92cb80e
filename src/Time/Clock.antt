-- ===== src/Time/Clock.antt =====
-- The game clock of time_api.c.
use zappy.Prelude.{ℕ, ◌-◌, ◌*◌, ◌/◌, ◌^◌, ◌≤◌, ◌<◌, some, arith}
use zappy.Time.{TimeApi, get_current_time_units}

-- The clock after an update that finds the machine at `ms` milliseconds.
abbrev pub units_at : TimeApi → ℕ → ℕ
units_at api ms = get_current_time_units (some api) ms

mul_le :
    (api : TimeApi) (m n : ℕ)
    → m ≤ n
    → (m - api.start_time_ms) * api.t ≤ (n - api.start_time_ms) * api.t
mul_le api m n h = grind arith

-- The game clock never runs backwards while the machine's does not, as long as the count of units
-- fits in 64 bits.
pub units_at_mono :
    (api : TimeApi) (m n : ℕ)
    → m ≤ n
    → (n - api.start_time_ms) * api.t / 1000 < 2 ^ 64
    → units_at api m ≤ units_at api n
unfolding get_current_time_units
units_at_mono api m n h fits = omega (arith, mul_le api m n h)
