-- ===== src/Observability/Snapshot.antt =====
-- go-server/internal/observability/metrics.go: Snapshot, which reads every counter.
pub mod Latency
use websocket.Common.{
  zero, suc, ℕ, ◌≡◌, refl, ◌+◌, ◌-◌, ◌/◌, ◌%◌, ◌^◌, ◌<◌, ltb, nat_eq, if◌then◌else◌,
}
use websocket.Integer.{ℤ, pos, negsuc}
use websocket.Observability.{Metrics}

-- The number that an int64's bit pattern stands for.
unfoldable pub from_bits : ℕ → ℤ
from_bits bits = if ltb bits (2 ^ 63) then pos bits else negsuc (2 ^ 64 - 1 - bits)

-- Go's quotient, which rounds towards zero, by a divisor that is positive.
unfoldable pub quotient : ℤ → ℕ → ℤ
quotient (pos n) d = pos (n / d)
quotient (negsuc n) d = if nat_eq ((n + 1) / d) 0 then pos 0 else negsuc ((n + 1) / d - 1)

-- 0 where nothing was counted.
unfoldable pub average : ℤ → ℤ → ℤ
average total (pos zero) = pos 0
average total (pos (suc n)) = quotient total (suc n)
average total (negsuc n) = pos 0

-- The inner structs are written out: the counts by type, the results, and the latency.
pub record MetricsSnapshot : Type 0 where
  pub active_connections : ℤ
  pub upgrades_attempted : ℤ
  pub upgrades_rejected : ℤ
  pub heartbeat_timeouts : ℤ
  pub queue_full_disconnects : ℤ
  pub messages_received : ℤ
  pub messages_sent : ℤ
  pub room_join : ℤ
  pub room_leave : ℤ
  pub room_broadcast : ℤ
  pub private_send : ℤ
  pub unknown : ℤ
  pub success : ℤ
  pub error : ℤ
  pub max_queue_depth : ℤ
  pub total_ns : ℤ
  pub count : ℤ
  pub average_ns : ℤ
  pub broker_publish_count : ℤ
  pub broker_receive_count : ℤ
  pub broker_publish_errors : ℤ

unfoldable pub metrics_snapshot : Metrics → MetricsSnapshot
unfolding from_bits
metrics_snapshot m = record {
  active_connections = from_bits m.active_connections;
  upgrades_attempted = from_bits m.upgrades_attempted;
  upgrades_rejected = from_bits m.upgrades_rejected;
  heartbeat_timeouts = from_bits m.heartbeat_timeouts;
  queue_full_disconnects = from_bits m.queue_full_disconnects;
  messages_received = from_bits m.messages_received;
  messages_sent = from_bits m.messages_sent;
  room_join = from_bits m.inbound_join_count;
  room_leave = from_bits m.inbound_leave_count;
  room_broadcast = from_bits m.inbound_broadcast_count;
  private_send = from_bits m.inbound_private_count;
  unknown = from_bits m.inbound_unknown_count;
  success = from_bits m.inbound_success_count;
  error = from_bits m.inbound_error_count;
  max_queue_depth = from_bits m.max_queue_depth;
  total_ns = from_bits m.processing_latency_total_ns;
  count = from_bits m.processing_latency_count;
  average_ns =
      average (from_bits m.processing_latency_total_ns) (from_bits m.processing_latency_count);
  broker_publish_count = from_bits m.broker_publish_count;
  broker_receive_count = from_bits m.broker_receive_count;
  broker_publish_errors = from_bits m.broker_publish_errors;
}
