-- ===== src/Loadtest/Latency.antt =====
-- go-server/cmd/loadtest/main.go (recordLatency): what the recorded latencies say.
use websocket.Common.{ℕ, ◌+◌, ◌%◌, ◌^◌, ◌≤◌, ◌<◌, ◌≡◌, List, [], ◌∷◌, arith, length}
use websocket.Observability.{add_one}
use websocket.Loadtest.{Stats, new_stats, record_latency}

abbrev pub recorded : List ℕ → Stats → Stats
recorded [] s = s
recorded (lat ∷ lats) s = recorded lats (record_latency lat s)

abbrev pub sum : List ℕ → ℕ
sum [] = 0
sum (lat ∷ lats) = lat + sum lats

-- Every latency of the list lies between the two.
abbrev pub AllWithin : ℕ → ℕ → List ℕ → Type 0
AllWithin least most [] = Unit
AllWithin least most (lat ∷ lats) = (least ≤ lat) × (lat ≤ most) × AllWithin least most lats

recorded-counts :
    (lats : List ℕ) (s : Stats)
    → s.latency_count < 2 ^ 64
    → s.total_latency < 2 ^ 64
    → ((recorded lats s).latency_count ≡ (s.latency_count + length lats) % 2 ^ 64)
      × ((recorded lats s).total_latency ≡ (s.total_latency + sum lats) % 2 ^ 64)
unfolding record_latency add_one
recorded-counts [] s h k = (omega arith, omega arith)
recorded-counts (lat ∷ lats) s h k =
    let (counted, summed) =
      recorded-counts lats (record_latency lat s) (omega arith) (omega arith) in
    (omega (arith, counted), omega (arith, summed))

recorded-AllWithin :
    (lats : List ℕ) (s : Stats)
    → ((recorded lats s).min_latency ≤ s.min_latency)
      × (s.max_latency ≤ (recorded lats s).max_latency)
      × AllWithin (recorded lats s).min_latency (recorded lats s).max_latency lats
unfolding record_latency
recorded-AllWithin [] s = (omega arith, omega arith, tt)
recorded-AllWithin (lat ∷ lats) s =
    let (low, high, rest) = recorded-AllWithin lats (record_latency lat s) in
    (ground (arith, low), ground (arith, high), (ground (arith, low), ground (arith, high), rest))

-- After any latencies, the statistics hold their number and their sum, modulo 2^64, and every one of
-- them lies between the recorded minimum and maximum.
pub record_latency_lem :
    (lats : List ℕ)
    → let s = recorded lats new_stats in
      (s.latency_count ≡ length lats % 2 ^ 64)
      × (s.total_latency ≡ sum lats % 2 ^ 64)
      × AllWithin s.min_latency s.max_latency lats
record_latency_lem lats =
    let (counted, summed) = recorded-counts lats new_stats (omega arith) (omega arith) in
    let (low, high, all) = recorded-AllWithin lats new_stats in
    (omega (arith, counted), omega (arith, summed), all)
