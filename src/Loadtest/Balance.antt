-- ===== src/Loadtest/Balance.antt =====
-- go-server/cmd/loadtest/main.go: the throttle and the statistics in any schedule.
use websocket.Common.{
  ℕ, zero, suc, ◌+◌, ◌-◌, ◌%◌, ◌^◌, ◌≤◌, ◌<◌, ◌≡◌, refl, Bool, true, false, arith, nat_eq,
  if◌then◌else◌, length,
}
use websocket.Loadtest.{
  Stats, Stage, waiting, dialing, greeting, joining, running, done, Worker, new_worker, LoadTest,
  set_worker, is_stage,
}

-- The sum of a measure over the first k clients.
abbrev pub total : (Worker → ℕ) → (ℕ → Worker) → ℕ → ℕ
total measure f zero = 0
total measure f (suc k) = measure (f k) + total measure f k

total-above :
    (measure : Worker → ℕ) (f : ℕ → Worker) (i : ℕ) (w : Worker) (k : ℕ)
    → k ≤ i
    → total measure (λ j. if nat_eq j i then w else f j) k ≡ total measure f k
total-above measure f i w zero h = refl
total-above measure f i w (suc k) h = ground (arith, total-above measure f i w k (omega arith))

-- A client that changes changes the sum by the change of its own measure.
pub total-set_worker :
    (measure : Worker → ℕ) (f : ℕ → Worker) (i : ℕ) (w : Worker) (k : ℕ)
    → i < k
    → total measure (λ j. if nat_eq j i then w else f j) k + measure (f i)
      ≡ total measure f k + measure w
total-set_worker measure f i w zero h = absurd (omega arith)
total-set_worker measure f i w (suc k) h =
    ground (arith, total-above measure f i w k, total-set_worker measure f i w k)

abbrev pub count_bool : Bool → ℕ
count_bool true = 1
count_bool false = 0

-- Whether a client has a token.
abbrev pub is_holding : Stage → Bool
is_holding waiting = false
is_holding dialing = true
is_holding greeting = true
is_holding joining = true
is_holding running = true
is_holding done = false

abbrev pub holding : Worker → ℕ
holding w = count_bool (is_holding w.stage)

abbrev pub ended : Worker → ℕ
ended w = count_bool (is_stage w.stage done)

abbrev pub undecided : Worker → ℕ
undecided w = count_bool (is_stage w.stage dialing)

abbrev pub outstanding : Worker → ℕ
outstanding w = length w.sent_times

abbrev pub unwritten : Worker → ℕ
unwritten w = count_bool w.pending

pub record IsBalanced (t : LoadTest) : Type 0 where
  -- the tokens taken are the clients inside runClient, never more than the concurrency
  pub slots_held : t.slots ≡ total holding t.worker t.num_clients
  pub limited : t.slots ≤ t.concurrency
  -- a client that has attempted a connection is inside runClient or past it
  pub attempts :
      t.stats.connections_attempted ≡ (t.slots + total ended t.worker t.num_clients) % 2 ^ 64
  -- an attempt has succeeded, has failed, or is still going on
  pub outcomes :
      t.stats.connections_attempted
      ≡ (t.stats.connections_established
          + t.stats.connection_errors
          + total undecided t.worker t.num_clients)
        % 2 ^ 64
  -- a message that was sent is acknowledged or has its time recorded
  pub answers :
      (t.stats.messages_sent + total unwritten t.worker t.num_clients) % 2 ^ 64
      ≡ (t.stats.messages_acked + total outstanding t.worker t.num_clients) % 2 ^ 64
  -- a latency is recorded for every acknowledgement
  pub measured : t.stats.latency_count ≡ t.stats.messages_acked
  -- who is not a client has not started
  pub outside : (i : ℕ) → t.num_clients ≤ i → t.worker i ≡ new_worker

-- A step of one client, by what it does to the measures.
pub set_worker-IsBalanced :
    (t : LoadTest) (i slots : ℕ) (w : Worker) (s : Stats)
    → i < t.num_clients
    → slots + holding (t.worker i) ≡ t.slots + holding w
    → slots ≤ t.concurrency
    → s.connections_attempted
      ≡ (t.stats.connections_attempted
          + holding w
          + ended w
          - holding (t.worker i)
          - ended (t.worker i))
        % 2 ^ 64
    → holding (t.worker i) + ended (t.worker i) ≤ holding w + ended w
    → (s.connections_attempted
          + t.stats.connections_established
          + t.stats.connection_errors
          + undecided (t.worker i))
        % 2 ^ 64
      ≡ (t.stats.connections_attempted
          + s.connections_established
          + s.connection_errors
          + undecided w)
        % 2 ^ 64
    → (s.messages_sent + unwritten w + t.stats.messages_acked + outstanding (t.worker i)) % 2 ^ 64
      ≡ (t.stats.messages_sent + unwritten (t.worker i) + s.messages_acked + outstanding w) % 2 ^ 64
    → s.latency_count ≡ s.messages_acked
    → IsBalanced t
    → IsBalanced (record (set_worker i w t) { slots = slots; stats = s })
set_worker-IsBalanced t i slots w s below held few attempted grows decided answered latencies v =
    let holders = total-set_worker holding t.worker i w t.num_clients below in
    let enders = total-set_worker ended t.worker i w t.num_clients below in
    let deciders = total-set_worker undecided t.worker i w t.num_clients below in
    let writers = total-set_worker unwritten t.worker i w t.num_clients below in
    let waiters = total-set_worker outstanding t.worker i w t.num_clients below in
    record {
      slots_held = omega (arith, v.slots_held);
      limited = few;
      attempts = omega (arith, v.attempts);
      outcomes = omega (arith, v.outcomes, v.attempts);
      answers = omega (arith, v.answers);
      measured = latencies;
      outside = λ j above. ground (arith, v.outside j above);
    }
