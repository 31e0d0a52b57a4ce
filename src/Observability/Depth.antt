-- ===== src/Observability/Depth.antt =====
-- go-server/internal/observability/metrics.go (UpdateMaxQueueDepth): the loop among other writers. Of
-- each round, `loaded` is what Load returns and `at_swap` what the counter holds when CompareAndSwap
-- looks at it. The values are lengths of queues, so none is negative.
use websocket.Common.{
  ℕ, ◌+◌, ◌≡◌, ◌≤◌, ◌<◌, List, [], ◌∷◌, Option, none, some, arith, leb, nat_eq, nat_eq_iff,
  if◌then◌else◌, length, Bool-cases, inl, inr,
}
use websocket.Observability.{Metrics, update_max_queue_depth}

-- What the counter holds when the loop has ended; `none` if it has not after these rounds.
unfoldable pub raise : ℕ → List (ℕ × ℕ) → Option ℕ
raise depth [] = none
raise depth ((loaded, at_swap) ∷ rounds) =
    let rest = raise depth rounds in
    if leb depth loaded then some loaded else if nat_eq at_swap loaded then some depth else rest

-- The counter starts at `low`, and nobody lowers it.
abbrev pub IsRising : ℕ → List (ℕ × ℕ) → Type 0
IsRising low [] = Unit
IsRising low ((loaded, at_swap) ∷ rounds) =
    (low ≤ loaded) × (loaded ≤ at_swap) × IsRising at_swap rounds

-- If no writer lowers the counter, the loop ends within one round more than the depth exceeds the
-- counter's value at the start, whatever the other writers do, and leaves a value that is not below
-- the depth.
pub raise-total :
    (depth low : ℕ) (rounds : List (ℕ × ℕ))
    → IsRising low rounds
    → depth < low + length rounds
    → 0 < length rounds
    → (value : ℕ) × (raise depth rounds ≡ some value) × (depth ≤ value)
unfolding raise
raise-total depth low [] rising enough above = absurd (omega arith)
raise-total depth low ((loaded, at_swap) ∷ rounds) (p, q, rising) enough above =
    elim (Bool-cases (leb depth loaded)) [
      | inl reached ↦ (loaded, ground arith, ground arith)
      | inr short ↦ elim (Bool-cases (nat_eq at_swap loaded)) [
        | inl same ↦ (depth, ground arith, omega arith)
        | inr lost ↦
            let (value, ends, high) =
              raise-total depth at_swap rounds rising (ground arith) (ground arith) in
            (value, ground arith, high)
      ]
    ]

-- Alone, the loop ends in its first round, and does what the counter's update does.
pub raise-alone :
    (depth : ℕ) (m : Metrics)
    → raise depth ((m.max_queue_depth, m.max_queue_depth) ∷ [])
      ≡ some (update_max_queue_depth depth m).max_queue_depth
unfolding raise update_max_queue_depth
raise-alone depth m = ground (arith, nat_eq_iff m.max_queue_depth m.max_queue_depth)
