-- ===== src/Observability/Snapshot/Latency.antt =====
-- go-server/internal/observability/metrics.go: what a snapshot says of the recorded latencies.
use websocket.Common.{
  ℕ, ◌≡◌, refl, ◌+◌, ◌/◌, ◌^◌, ◌≤◌, ◌<◌, List, [], ◌∷◌, arith, length, is_empty, leb, if◌then◌else◌,
}
use websocket.Integer.{pos}
use websocket.Observability.{Metrics, new_metrics, record_processing_latency, add_one}
use websocket.Observability.Snapshot.{from_bits, quotient, average, metrics_snapshot}

abbrev pub record_each : List ℕ → Metrics → Metrics
record_each [] m = m
record_each (ns ∷ samples) m = record_each samples (record_processing_latency ns m)

-- A latency that is not positive is counted as one nanosecond.
abbrev pub latency : List ℕ → ℕ
latency [] = 0
latency (ns ∷ samples) = (if leb ns 0 then 1 else ns) + latency samples

length-latency : (samples : List ℕ) → length samples ≤ latency samples
length-latency [] = omega arith
length-latency (ns ∷ samples) = ground (arith, length-latency samples)

record_each-total :
    (samples : List ℕ) (m : Metrics)
    → m.processing_latency_total_ns + latency samples < 2 ^ 63
    → (record_each samples m).processing_latency_total_ns
      ≡ m.processing_latency_total_ns + latency samples
unfolding record_processing_latency add_one
record_each-total [] m h = omega arith
record_each-total (ns ∷ samples) m h =
    let here : (record_processing_latency ns m).processing_latency_total_ns
        ≡ m.processing_latency_total_ns + (if leb ns 0 then 1 else ns) =
      omega arith in
    omega (
      arith,
      here,
      record_each-total samples (record_processing_latency ns m) (omega (arith, here)),
    )

record_each-count :
    (samples : List ℕ) (m : Metrics)
    → m.processing_latency_count + length samples < 2 ^ 63
    → (record_each samples m).processing_latency_count ≡ m.processing_latency_count + length samples
unfolding record_processing_latency add_one
record_each-count [] m h = omega arith
record_each-count (ns ∷ samples) m h =
    let here : (record_processing_latency ns m).processing_latency_count
        ≡ m.processing_latency_count + 1 =
      omega arith in
    omega (
      arith,
      here,
      record_each-count samples (record_processing_latency ns m) (omega (arith, here)),
    )

from_bits-small : (bits n : ℕ) → bits ≡ n → n < 2 ^ 63 → from_bits bits ≡ pos n
unfolding from_bits
from_bits-small bits n e h = ground arith

average-pos :
    (samples : List ℕ)
    → average (pos (latency samples)) (pos (length samples))
      ≡ (if is_empty samples then pos 0 else pos (latency samples / length samples))
unfolding average quotient
average-pos [] = refl
average-pos (ns ∷ samples) = refl

-- After any latencies have been recorded in new counters, a snapshot has their number, their sum
-- and the rounded-down mean, 0 if there is none, as long as the sum stays below 2^63, where a latency
-- of 0 counts as one nanosecond.
pub metrics_snapshot-latency :
    (samples : List ℕ)
    → latency samples < 2 ^ 63
    → let s = metrics_snapshot (record_each samples new_metrics) in
      (s.count ≡ pos (length samples))
      × (s.total_ns ≡ pos (latency samples))
      × (s.average_ns
          ≡ (if is_empty samples then pos 0 else pos (latency samples / length samples)))
unfolding metrics_snapshot
metrics_snapshot-latency samples h =
    let total = record_each-total samples new_metrics (omega arith) in
    let count = record_each-count samples new_metrics (omega (arith, length-latency samples)) in
    let shown_total : from_bits (record_each samples new_metrics).processing_latency_total_ns
        ≡ pos (latency samples) =
      from_bits-small _ _ (omega (arith, total)) h in
    let shown_count : from_bits (record_each samples new_metrics).processing_latency_count
        ≡ pos (length samples) =
      from_bits-small _ _ (omega (arith, count)) (omega (arith, length-latency samples)) in
    (shown_count, shown_total, rw (shown_total, shown_count) (average-pos samples))
