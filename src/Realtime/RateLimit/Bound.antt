-- ===== src/Realtime/RateLimit/Bound.antt =====
-- go-server/internal/realtime/rate_limit.go: how many messages the token bucket lets through.
use websocket.Common.{
  ◌^◌, false, nat_eq, ◌||◌, zero, suc, leb, ℕ, ◌+◌, ◌-◌, ◌*◌, ◌≤◌, ◌<◌, ◌≡◌, refl, true, List, [],
  ◌∷◌, arith, if◌then◌else◌,
}
use websocket.Realtime.RateLimit.{RateLimiter, allow_at, new_rate_limiter, refilled}

-- A sequence of calls at the given times: the bucket after them, and how many were let through.
abbrev pub allow_each : RateLimiter → List ℕ → RateLimiter × ℕ
allow_each rl [] = (rl, 0)
allow_each rl (now ∷ times) =
    let (rl', ok) = allow_at rl now in
    let (end, count) = allow_each rl' times in (end, (if ok then 1 else 0) + count)

-- A number of calls at one instant.
abbrev pub at_once : ℕ → ℕ → List ℕ
at_once zero now = []
at_once (suc k) now = now ∷ at_once k now

abbrev pub smaller : ℕ → ℕ → ℕ
smaller a b = if leb a b then a else b

the_same : (now : ℕ) → now - now ≡ 0
the_same now = omega arith

module _ (l i now : ℕ) (h : 0 < i) where
  abbrev holding : ℕ → RateLimiter
  holding m = record { limit = l; interval = i; tokens = m * i; last_refreshed = now }

  refilled_now : (m : ℕ) → m ≤ l → refilled (holding m) now ≡ m * i
  unfolding refilled
  refilled_now m few =
      let still : l * (now - now) ≡ 0 = rw (the_same now) (grind arith) in
      let below : m * i ≤ l * i = grind arith in ground (arith, still, below)

  limited : 0 < l → nat_eq l 0 || nat_eq i 0 ≡ false
  limited full = ground arith

  allow_at-spent : 0 < l → allow_at (holding 0) now ≡ (holding 0, false)
  unfolding allow_at
  allow_at-spent full =
      let short : leb i (0 * i) ≡ false = ground arith in
      rw (limited full, refilled_now 0 (omega arith), short) refl

  allow_at-one : (m : ℕ) → suc m ≤ l → allow_at (holding (suc m)) now ≡ (holding m, true)
  unfolding allow_at
  allow_at-one m few =
      let product : suc m * i ≡ i + m * i = grind arith in
      let enough : leb i (suc m * i) ≡ true = ground (arith, product) in
      let left : suc m * i - i ≡ m * i = omega (arith, product) in
      rw (limited (omega arith), refilled_now (suc m) few, enough, left) refl

  -- A bucket with m whole tokens lets the first m of any calls at its last refresh through.
  burst : (k m : ℕ) → 0 < l → m ≤ l → (allow_each (holding m) (at_once k now)).1 ≡ smaller k m
  burst zero m full few = ground arith
  burst (suc k) zero full few = rw (allow_at-spent full) (ground (arith, burst k 0 full few))
  burst (suc k) (suc m) full few =
      rw (allow_at-one m few) (ground (arith, burst k m full (omega arith)))

rested_refill :
    (rl : RateLimiter) (now : ℕ)
    → rl.last_refreshed + rl.interval ≤ now
    → refilled rl now ≡ rl.limit * rl.interval
unfolding refilled
rested_refill rl now late =
    let elapsed : rl.interval ≤ now - rl.last_refreshed = omega arith in
    let gained : rl.limit * rl.interval ≤ rl.limit * (now - rl.last_refreshed) = grind arith in
    ground (arith, gained)

-- A bucket that has rested for its interval is as good as new.
allow_at-full :
    (rl : RateLimiter) (now : ℕ)
    → 0 < rl.limit
    → 0 < rl.interval
    → rl.last_refreshed + rl.interval ≤ now
    → allow_at rl now ≡ allow_at (new_rate_limiter rl.limit rl.interval now) now
unfolding allow_at new_rate_limiter
allow_at-full rl now h k late =
    rw
      (
        limited rl.limit rl.interval now k h,
        rested_refill rl now late,
        refilled_now rl.limit rl.interval now k rl.limit (omega arith),
      )
      refl

-- A bucket with a positive limit and interval, however many tokens it has left, lets exactly the first
-- `limit` of any number of calls through that come together an interval or more after its last
-- refresh. Up to a limit of 2^53, where the whole numbers of a float64 are exact, rounding has no part
-- in this: the refill is at least the limit, and is cut to it.
pub allow_each-rested :
    (rl : RateLimiter) (now k : ℕ)
    → 0 < rl.limit
    → rl.limit ≤ 2 ^ 53
    → 0 < rl.interval
    → rl.last_refreshed + rl.interval ≤ now
    → (allow_each rl (at_once k now)).1 ≡ smaller k rl.limit
unfolding new_rate_limiter
allow_each-rested rl now zero h small i late = ground arith
allow_each-rested rl now (suc k) h small i late =
    rw (allow_at-full rl now h i late)
      (burst rl.limit rl.interval now i (suc k) rl.limit h (omega arith))
