-- ===== src/Loadtest/Statistics.antt =====
-- go-server/cmd/loadtest/main.go: the statistics of the load test, and recordLatency. A latency, taken
-- from the monotonic clock, is not negative.
use websocket.Common.{ℕ, ◌+◌, ◌%◌, ◌^◌, ltb, if◌then◌else◌}
use websocket.Observability.{add_one}

-- The counters are bit patterns; latencies are in microseconds.
pub record Stats : Type 0 where
  pub connections_attempted : ℕ
  pub connections_established : ℕ
  pub connection_errors : ℕ
  pub messages_sent : ℕ
  pub messages_acked : ℕ
  pub broadcasts_received : ℕ
  pub errors_received : ℕ
  pub min_latency : ℕ
  pub max_latency : ℕ
  pub total_latency : ℕ
  pub latency_count : ℕ

-- The Stats of main.
abbrev pub new_stats : Stats
new_stats = record {
  connections_attempted = 0;
  connections_established = 0;
  connection_errors = 0;
  messages_sent = 0;
  messages_acked = 0;
  broadcasts_received = 0;
  errors_received = 0;
  min_latency = 9999999999;
  max_latency = 0;
  total_latency = 0;
  latency_count = 0;
}

-- The two loops of CompareAndSwap each take effect at once.
unfoldable pub record_latency : ℕ → Stats → Stats
unfolding add_one
record_latency lat s = record s {
  latency_count = add_one s.latency_count;
  total_latency = (s.total_latency + lat) % 2 ^ 64;
  min_latency = if ltb lat s.min_latency then lat else s.min_latency;
  max_latency = if ltb s.max_latency lat then lat else s.max_latency;
}
