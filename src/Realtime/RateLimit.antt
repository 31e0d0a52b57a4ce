-- ===== src/Realtime/RateLimit.antt =====
-- go-server/internal/realtime/rate_limit.go: the token bucket.
--
-- A float64 number of tokens t is modelled by the exact number of parts t * interval, so a refill of
-- limit * (elapsed / interval) tokens is limit * elapsed parts and a token is interval parts: the
-- rounding of floats is left out, by which the program may let a call through a little earlier than an
-- exact bucket would. Times are nanoseconds; time.Now carries a monotonic reading, so
-- `now` is not before the last refresh, and `-` is the elapsed time.
pub mod Bound
use websocket.Common.{ℕ, ◌+◌, ◌-◌, ◌*◌, Bool, true, false, ◌||◌, leb, ltb, nat_eq, if◌then◌else◌}

pub record RateLimiter : Type 0 where
  pub limit : ℕ
  pub interval : ℕ
  pub tokens : ℕ
  pub last_refreshed : ℕ

unfoldable pub new_rate_limiter : ℕ → ℕ → ℕ → RateLimiter
new_rate_limiter limit interval now = record {
  limit = limit;
  interval = interval;
  tokens = limit * interval;
  last_refreshed = now;
}

abbrev at_most : ℕ → ℕ → ℕ
at_most cap n = if ltb cap n then cap else n

-- The bucket after the refill and the cap.
unfoldable pub refilled : RateLimiter → ℕ → ℕ
refilled rl now =
    at_most (rl.limit * rl.interval) (rl.tokens + rl.limit * (now - rl.last_refreshed))

unfoldable pub allow_at : RateLimiter → ℕ → RateLimiter × Bool
unfolding refilled
allow_at rl now =
    if nat_eq rl.limit 0 || nat_eq rl.interval 0
    then (rl, true)
    else if leb rl.interval (refilled rl now)
    then (record rl { tokens = refilled rl now - rl.interval; last_refreshed = now }, true)
    else (record rl { tokens = refilled rl now; last_refreshed = now }, false)
