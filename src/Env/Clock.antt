-- ===== src/Env/Clock.antt =====
-- env_boost.cc: `NowMicros`.
use my_leveldb.Common.{ℕ, ◌+◌, ◌-◌, ◌/◌, ◌%◌, ◌≤◌, ◌<◌, ◌≡◌, refl, ◌↔◌, some, arith}
use my_leveldb.Env.System.{Os}
use my_leveldb.Env.Posix.{now_micros, micros_per_day}

same_day :
    (a b : ℕ)
    → a ≤ b
    → (a % micros_per_day + (b - a) ≡ b % micros_per_day)
      ↔ (a / micros_per_day ≡ b / micros_per_day)
same_day a b h = (λ e. omega (arith, e), λ e. omega (arith, e))

-- Of two calls of `NowMicros`, the second at a time not before the first, the difference of the
-- results is the time that has passed exactly if both calls are on the same day of the clock, and
-- each result is below the microseconds of a day: the clock starts again from zero at midnight.
pub now_micros_same_day :
    {S : Type 0} (os : Os S) (s t : S)
    → os.universal_time s ≤ os.universal_time t
    → (x : ℕ) × (y : ℕ) × (now_micros os s ≡ some (x, s))
      × (now_micros os t ≡ some (y, t))
      × (x < micros_per_day)
      × (y < micros_per_day)
      × ((x + (os.universal_time t - os.universal_time s) ≡ y)
          ↔ (os.universal_time s / micros_per_day ≡ os.universal_time t / micros_per_day))
unfolding now_micros
now_micros_same_day os s t h = (
  os.universal_time s % micros_per_day,
  os.universal_time t % micros_per_day,
  refl,
  refl,
  omega arith,
  omega arith,
  same_day (os.universal_time s) (os.universal_time t) h,
)
