-- ===== src/Observability.antt =====
-- go-server/internal/observability/metrics.go: the process counters. An atomic.Int64 is its bit
-- pattern, a number below 2^64, so Add wraps and Add(-1) is Add(2^64 - 1).
pub mod Snapshot
pub mod Depth
mod Tests
use websocket.Common.{ℕ, ◌+◌, ◌%◌, ◌^◌, Bool, true, false, leb, if◌then◌else◌}
use websocket.Text.{Str, ◌==◌, text}

pub record Metrics : Type 0 where
  pub active_connections : ℕ
  pub upgrades_attempted : ℕ
  pub upgrades_rejected : ℕ
  pub heartbeat_timeouts : ℕ
  pub queue_full_disconnects : ℕ
  pub messages_received : ℕ
  pub messages_sent : ℕ
  pub inbound_join_count : ℕ
  pub inbound_leave_count : ℕ
  pub inbound_broadcast_count : ℕ
  pub inbound_private_count : ℕ
  pub inbound_unknown_count : ℕ
  pub inbound_success_count : ℕ
  pub inbound_error_count : ℕ
  pub max_queue_depth : ℕ
  pub processing_latency_total_ns : ℕ
  pub processing_latency_count : ℕ
  pub broker_publish_count : ℕ
  pub broker_receive_count : ℕ
  pub broker_publish_errors : ℕ

abbrev pub new_metrics : Metrics
new_metrics = record {
  active_connections = 0;
  upgrades_attempted = 0;
  upgrades_rejected = 0;
  heartbeat_timeouts = 0;
  queue_full_disconnects = 0;
  messages_received = 0;
  messages_sent = 0;
  inbound_join_count = 0;
  inbound_leave_count = 0;
  inbound_broadcast_count = 0;
  inbound_private_count = 0;
  inbound_unknown_count = 0;
  inbound_success_count = 0;
  inbound_error_count = 0;
  max_queue_depth = 0;
  processing_latency_total_ns = 0;
  processing_latency_count = 0;
  broker_publish_count = 0;
  broker_receive_count = 0;
  broker_publish_errors = 0;
}

-- Add(1) and Add(-1) of an atomic.Int64.
unfoldable pub add_one : ℕ → ℕ
add_one n = (n + 1) % 2 ^ 64

unfoldable pub sub_one : ℕ → ℕ
sub_one n = (n + 18446744073709551615) % 2 ^ 64

unfoldable pub increment_active_connections : Metrics → Metrics
unfolding add_one
increment_active_connections m = record m { active_connections = add_one m.active_connections }

unfoldable pub decrement_active_connections : Metrics → Metrics
unfolding sub_one
decrement_active_connections m = record m { active_connections = sub_one m.active_connections }

unfoldable pub increment_upgrades_attempted : Metrics → Metrics
unfolding add_one
increment_upgrades_attempted m = record m { upgrades_attempted = add_one m.upgrades_attempted }

unfoldable pub increment_upgrades_rejected : Metrics → Metrics
unfolding add_one
increment_upgrades_rejected m = record m { upgrades_rejected = add_one m.upgrades_rejected }

unfoldable pub increment_heartbeat_timeouts : Metrics → Metrics
unfolding add_one
increment_heartbeat_timeouts m = record m { heartbeat_timeouts = add_one m.heartbeat_timeouts }

unfoldable pub increment_queue_full_disconnects : Metrics → Metrics
unfolding add_one
increment_queue_full_disconnects m = record m {
  queue_full_disconnects = add_one m.queue_full_disconnects;
}

unfoldable pub increment_messages_received : Metrics → Metrics
unfolding add_one
increment_messages_received m = record m { messages_received = add_one m.messages_received }

unfoldable pub increment_messages_sent : Metrics → Metrics
unfolding add_one
increment_messages_sent m = record m { messages_sent = add_one m.messages_sent }

unfoldable pub increment_inbound_type : Str → Metrics → Metrics
unfolding add_one
increment_inbound_type msg_type m =
    if msg_type == text "room.join"
    then record m { inbound_join_count = add_one m.inbound_join_count }
    else if msg_type == text "room.leave"
    then record m { inbound_leave_count = add_one m.inbound_leave_count }
    else if msg_type == text "room.broadcast"
    then record m { inbound_broadcast_count = add_one m.inbound_broadcast_count }
    else if msg_type == text "private.send"
    then record m { inbound_private_count = add_one m.inbound_private_count }
    else record m { inbound_unknown_count = add_one m.inbound_unknown_count }

unfoldable pub increment_inbound_result : Bool → Metrics → Metrics
unfolding add_one
increment_inbound_result true m = record m {
  inbound_success_count = add_one m.inbound_success_count;
}
increment_inbound_result false m = record m { inbound_error_count = add_one m.inbound_error_count }

-- The compare-and-swap loop, which retries until no other writer came between. The depths given to
-- it are lengths of queues, so the patterns compared are not negative.
unfoldable pub update_max_queue_depth : ℕ → Metrics → Metrics
update_max_queue_depth depth m =
    if leb depth m.max_queue_depth then m else record m { max_queue_depth = depth }

unfoldable pub increment_broker_publish_count : Metrics → Metrics
unfolding add_one
increment_broker_publish_count m = record m {
  broker_publish_count = add_one m.broker_publish_count;
}

unfoldable pub increment_broker_receive_count : Metrics → Metrics
unfolding add_one
increment_broker_receive_count m = record m {
  broker_receive_count = add_one m.broker_receive_count;
}

unfoldable pub increment_broker_publish_errors : Metrics → Metrics
unfolding add_one
increment_broker_publish_errors m = record m {
  broker_publish_errors = add_one m.broker_publish_errors;
}

unfoldable pub record_processing_latency : ℕ → Metrics → Metrics
unfolding add_one
record_processing_latency ns m = record m {
  processing_latency_total_ns =
      (m.processing_latency_total_ns + (if leb ns 0 then 1 else ns)) % 2 ^ 64;
  processing_latency_count = add_one m.processing_latency_count;
}
