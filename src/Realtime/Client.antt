-- ===== src/Realtime/Client.antt =====
-- go-server/internal/realtime/client.go: newClient, Close, Send, SendJSON, QueueDepth and the three
-- senders of events. A method on a *Client takes its address. Each runs to its end as one step; the
-- log lines and the socket's own Close are left out.
use websocket.Common.{
  ℕ, suc, ◌+◌, Bool, true, false, [], ◌∷◌, ◌++◌, Option, none, some, ltb, if◌then◌else◌, length,
}
use websocket.Text.{Str, ◌==◌, text}
use websocket.Observability.{
  increment_active_connections, decrement_active_connections, increment_heartbeat_timeouts,
  increment_queue_full_disconnects, update_max_queue_depth,
}
use websocket.Realtime.Message.{
  Codec, OutboundMessage, EventPayload, ErrorCode, ProtocolError, InboundMessage, acknowledgement,
  error_payload, ready, new_outbound_message, command_ack, event_error, connection_ready,
}
use websocket.Realtime.RateLimit.{RateLimiter}
use websocket.Realtime.Rooms.{unregister}
use websocket.Realtime.Node.{Node, Client, set_client, set_hub, count_metric}

pub record ClientOptions : Type 0 where
  pub connection_id : Str
  pub user_id : Str
  pub queue_capacity : ℕ
  pub read_timeout : ℕ
  pub write_timeout : ℕ
  pub has_on_close : Bool
  pub has_hub : Bool
  pub ping_interval : ℕ
  pub max_message_size : ℕ
  pub limiter : Option RateLimiter

abbrev pub allocate : ℕ → ClientOptions → Client
allocate a o = record {
  self = record { address = a; connection_id = o.connection_id; user_id = o.user_id };
  queue_capacity = o.queue_capacity;
  read_timeout = o.read_timeout;
  write_timeout = o.write_timeout;
  ping_interval = o.ping_interval;
  max_message_size = o.max_message_size;
  has_hub = o.has_hub;
  has_on_close = o.has_on_close;
  limiter = o.limiter;
  send = [];
  closed = false;
  registered = false;
  reading = false;
}

-- The new session's address is the `next` of the node before.
unfoldable pub new_client : ClientOptions → Node → Node
unfolding increment_active_connections
new_client o n = record (set_client n.next (allocate n.next o) n) {
  next = suc n.next;
  metrics = increment_active_connections n.metrics;
}

abbrev pub text_message : ℕ
text_message = 1

-- onClose, where it is set.
unfoldable pub run_on_close : Client → Node → Node
run_on_close c n = if c.has_on_close then set_hub (unregister n.hub c.self).0 n else n

unfoldable pub count_close : Str → Node → Node
count_close reason n =
    let n' = count_metric decrement_active_connections n in
    if reason == text "heartbeat_timeout"
    then count_metric increment_heartbeat_timeouts n'
    else if reason == text "outbound_queue_full"
    then count_metric increment_queue_full_disconnects n'
    else n'

unfoldable pub close : ℕ → Str → Node → Node
unfolding run_on_close count_close
close a reason n =
    let c = n.client a in
    if c.closed
    then n
    else count_close reason (run_on_close c (set_client a (record c { closed = true }) n))

unfoldable pub send : ℕ → ℕ → Str → Node → Node × Bool
send a message_type payload n =
    let c = n.client a in
    let queue = c.send ++ record { message_type = message_type; payload = payload } ∷ [] in
    if c.closed
    then (n, false)
    else if ltb (length c.send) c.queue_capacity
    then (
      count_metric (update_max_queue_depth (length queue))
          (set_client a (record c { send = queue }) n),
      true,
    )
    else (close a (text "outbound_queue_full") n, false)

unfoldable pub queue_depth : ℕ → Node → ℕ
queue_depth a n = length (n.client a).send

module _ (codec : Codec) where
  unfoldable pub send_json : ℕ → OutboundMessage → Node → Node × Bool
  send_json a event n = elim (codec.marshal event) [
    | none ↦ (close a (text "message_encode_failed") n, false)
    | some payload ↦ send a text_message payload n
  ]

  -- newOutboundMessage, with the node that has counted the call.
  unfoldable pub make_event : Str → Str → EventPayload → Node → Node × Option OutboundMessage
  make_event type request_id payload n = (
    record n { events = n.events + 1 },
    new_outbound_message codec n.events type request_id payload,
  )

  -- The common body of sendAcknowledgement, sendProtocolError and sendError.
  unfoldable pub send_event : ℕ → Str → Str → EventPayload → Node → Node × Bool
  unfolding make_event
  send_event a type request_id payload n =
      let (n', made) = make_event type request_id payload n in
      elim made [
        | none ↦ (close a (text "event_id_failed") n', false)
        | some event ↦ send_json a event n'
      ]

  unfoldable pub send_acknowledgement : ℕ → InboundMessage → Node → Node × Bool
  send_acknowledgement a message =
      send_event a command_ack message.request_id (acknowledgement (text "accepted") message.type)

  unfoldable pub send_protocol_error : ℕ → ProtocolError → Node → Node × Bool
  send_protocol_error a e =
      send_event a event_error e.request_id (error_payload e.code e.message false)

  unfoldable pub send_error : ℕ → Str → ErrorCode → Str → Node → Node × Bool
  send_error a request_id code message =
      send_event a event_error request_id (error_payload code message false)

  unfoldable pub ready_event : ℕ → Node → Node × Option OutboundMessage
  ready_event a n =
      let c = (n.client a).self in
      make_event connection_ready [] (ready c.connection_id c.user_id) n
