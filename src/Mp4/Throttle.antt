-- ===== src/Mp4/Throttle.antt =====
-- `compute_with_throttle` of MP4/utils.c, less the computation: for how long it sleeps. `scale` is
-- the product of a time with `1 - throttle`, in floating point, as it is stored in a `time_t`: cut
-- to whole microseconds.
use cs423_2017sp.Prelude.{ℕ, ◌+◌, ◌*◌, ◌<◌, ◌≡◌, arith}
use cs423_2017sp.Prelude.Int.{ℤ, pos, negsuc, pos_part, neg_part, ◌+ℤ◌, ◌-ℤ◌, ◌*ℤ◌, tdiv}

-- `struct timeval`
pub record Timeval : Type 0 where
  pub tv_sec : ℕ
  pub tv_usec : ℕ

-- The microseconds between two readings of the clock.
unfoldable pub elapsed : (start end' : Timeval) → ℤ
elapsed start end' =
    (pos end'.tv_sec -ℤ pos start.tv_sec) *ℤ pos 1000000 +ℤ (pos end'.tv_usec -ℤ pos start.tv_usec)

-- The seconds and nanoseconds that are passed to `nanosleep`.
unfoldable pub timespec : (sleep_time : ℤ) → ℤ × ℤ
timespec sleep_time =
    let seconds = tdiv sleep_time (pos 1000000) in
    (seconds, (sleep_time -ℤ seconds *ℤ pos 1000000) *ℤ pos 1000)

unfoldable pub compute_with_throttle : (scale : ℤ → ℤ) → (start end' : Timeval) → ℤ × ℤ
compute_with_throttle scale start end' = timespec (scale (elapsed start end'))

-- What `nanosleep` accepts: no negative seconds, and nanoseconds from 0 to 999999999.
abbrev pub IsTimespec : ℤ × ℤ → Type 0
IsTimespec (seconds, nanoseconds) =
    (neg_part seconds ≡ 0) × (neg_part nanoseconds ≡ 0) × (pos_part nanoseconds < 1000000000)

-- A number of microseconds is slept, or refused if it is negative.
abbrev pub Slept : ℤ → ℤ × ℤ → Type 0
Slept (pos t) r = IsTimespec r × (1000000000 * pos_part r.0 + pos_part r.1 ≡ 1000 * t)
Slept (negsuc t) r = ¬ IsTimespec r

timespec-Slept : (t : ℤ) → Slept t (timespec t)
unfolding timespec ◌-ℤ◌ ◌*ℤ◌
timespec-Slept (pos t) = ground arith
timespec-Slept (negsuc t) = λ v. ground (arith, v)

-- A reading of the clock in microseconds.
abbrev pub microseconds : Timeval → ℕ
microseconds t = 1000000 * t.tv_sec + t.tv_usec

elapsed-microseconds :
    (start end' : Timeval)
    → elapsed start end' +ℤ pos (microseconds start) ≡ pos (microseconds end')
unfolding elapsed ◌-ℤ◌ ◌*ℤ◌ ◌+ℤ◌
elapsed-microseconds start end' = ground arith

-- What `compute_with_throttle` measures is the time between its two readings of the clock, to the
-- microsecond, also when the clock was set back. Let the sleep time be the product of that time
-- with `1 - throttle`, cut to whole microseconds. If it is not negative, then `nanosleep` is passed
-- a valid time of just that many microseconds. If it is negative, as with a throttle far enough
-- above 1, then `nanosleep` is passed a time that it refuses.
pub compute_with_throttle-Slept :
    (scale : ℤ → ℤ) (start end' : Timeval)
    → (elapsed start end' +ℤ pos (microseconds start) ≡ pos (microseconds end'))
      × Slept (scale (elapsed start end')) (compute_with_throttle scale start end')
unfolding compute_with_throttle
compute_with_throttle-Slept scale start end' =
    (elapsed-microseconds start end', timespec-Slept (scale (elapsed start end')))
