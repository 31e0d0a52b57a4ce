-- ===== src/Observability/Tests.antt =====
-- The counters after three recorded latencies, one of which is 0.
use websocket.Common.{◌≤◌, some, ◌≡◌, [], ◌∷◌, ℕ, arith}
use websocket.Observability.Depth.{raise, raise-total}

-- A writer comes between in the first round, and the second succeeds.
raise-total_example :
    (value : ℕ) × (raise 5 ((2, 3) ∷ (3, 3) ∷ (3, 3) ∷ (4, 4) ∷ []) ≡ some value) × (5 ≤ value)
raise-total_example =
    raise-total 5 2 ((2, 3) ∷ (3, 3) ∷ (3, 3) ∷ (4, 4) ∷ [])
      (
        omega arith,
        omega arith,
        (omega arith, omega arith, (omega arith, omega arith, (omega arith, omega arith, tt))),
      )
      (omega arith) (omega arith)
