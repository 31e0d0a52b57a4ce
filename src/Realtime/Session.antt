-- ===== src/Realtime/Session.antt =====
-- go-server/internal/realtime/client.go (readLoop): what a session does with one frame. The socket is
-- outside: each call of it is an argument that says how it ended.
use websocket.Common.{
  ℕ, Bool, true, false, ◌&&◌, not, [], Option, none, some, nat_eq, ltb, if◌then◌else◌, is_empty,
}
use websocket.Text.{Str, ◌==◌, text}
use websocket.Observability.{
  increment_inbound_result, increment_inbound_type, increment_messages_received,
  record_processing_latency,
}
use websocket.Broker.Event.{EventCodec}
use websocket.Realtime.Message.{
  Codec, InboundMessage, Decoded, decoded, rejected, decode_inbound, room_join, room_leave,
  room_broadcast, private_send, invalid_message, unauthorized, rate_limit_exceeded, ErrorCode,
}
use websocket.Realtime.Message
use websocket.Realtime.RateLimit.{allow_at}
use websocket.Realtime.Rooms.{
  HubError, denied, room_limit, recipient_offline, recipient_overloaded, event_id_failed,
  encode_failed, publish_failed, Authorizer, join, leave, authorize_broadcast,
}
use websocket.Realtime.Node.{Node, set_client, set_hub, count_metric}
use websocket.Realtime.Client.{send_acknowledgement, send_protocol_error, send_error, text_message}
use websocket.Realtime.Hub.{broadcast_room, send_private}

-- err.Error()
unfoldable pub error_text : Codec → HubError → Str
error_text codec (denied message) = message
error_text codec room_limit = text "maximum room membership limit reached"
error_text codec recipient_offline = text "recipient is offline"
error_text codec recipient_overloaded = text "recipient queue is full"
error_text codec event_id_failed = codec.random_error
error_text codec encode_failed = codec.encode_error
error_text codec publish_failed = codec.publish_error

-- The code that a failed SendPrivate is reported with.
unfoldable pub private_error_code : HubError → ErrorCode
private_error_code recipient_overloaded = Message.recipient_overloaded
private_error_code _ = Message.recipient_offline

-- What ReadMessage returned, when, and how long the handling took.
pub record Received : Type 0 where
  pub message_type : ℕ
  pub payload : Str
  pub at : ℕ
  pub took : ℕ

-- What a command leaves: the node, resultSuccess, and the exit reason unless it is "".
abbrev pub Handled : Type 0
Handled = Node × Bool × Option Str

-- The result of a reply that closes the handling.
abbrev pub replied : Bool → Node × Bool → Handled
replied success (n, sent) = (n, success, if sent then none else some (text "outbound_unavailable"))

-- c.limiter != nil && !c.limiter.Allow(), with the limiter that Allow leaves.
unfoldable pub rate_limit : ℕ → ℕ → Node → Node × Bool
rate_limit a at n =
    let c = n.client a in
    elim c.limiter [
      | none ↦ (n, false)
      | some rl ↦
          let (rl', allowed) = allow_at rl at in
          (set_client a (record c { limiter = some rl' }) n, not allowed)
    ]

-- The label of the counters: message.Type unless it is "".
unfoldable pub inbound_type : Str → Str
inbound_type type = if is_empty type then text "unknown" else type

unfoldable pub decoded_type : Decoded → Str
decoded_type (decoded m) = inbound_type m.type
decoded_type (rejected e) = inbound_type []

-- The deferred counters of one frame.
unfoldable pub count_inbound : ℕ → Str → Bool → Node → Node
count_inbound took type success n =
    count_metric (increment_inbound_result success)
      (count_metric (increment_inbound_type type) (count_metric (record_processing_latency took) n))

module _ (codec : Codec) (events : EventCodec) (publish : Str → Str → Node → Node × Bool)
    (auth : Authorizer) where
  unfoldable pub reply_error : ℕ → InboundMessage → ErrorCode → HubError → Node → Handled
  reply_error a m code e n =
      replied false (send_error codec a m.request_id code (error_text codec e) n)

  unfoldable pub handle_join : ℕ → InboundMessage → Node → Handled
  handle_join a m n =
      let (hub, err) = join auth n.hub (n.client a).self m.room_id in
      if (n.client a).has_hub
      then (elim err [
        | some e ↦ reply_error a m unauthorized e (set_hub hub n)
        | none ↦ replied true (send_acknowledgement codec a m (set_hub hub n))
      ])
      else replied true (send_acknowledgement codec a m n)

  unfoldable pub handle_leave : ℕ → InboundMessage → Node → Handled
  handle_leave a m n =
      let n' = set_hub (leave n.hub (n.client a).self m.room_id) n in
      replied true (send_acknowledgement codec a m (if (n.client a).has_hub then n' else n))

  unfoldable pub handle_broadcast : ℕ → InboundMessage → Node → Handled
  handle_broadcast a m n =
      let c = (n.client a).self in
      if (n.client a).has_hub
      then (elim (authorize_broadcast auth n.hub c m.room_id) [
        | some e ↦ reply_error a m unauthorized e n
        | none ↦ replied true (
            send_acknowledgement codec a m
              (broadcast_room codec events publish c.user_id m.room_id m.payload n))
      ])
      else replied true (send_acknowledgement codec a m n)

  unfoldable pub handle_private : ℕ → InboundMessage → Node → Handled
  handle_private a m n =
      let c = (n.client a).self in
      if (n.client a).has_hub
      then (elim (auth.authorize_private_send c.user_id m.recipient_id) [
        | some message ↦ reply_error a m unauthorized (denied message) n
        | none ↦
            let (n', err) =
              send_private codec events publish c.user_id m.recipient_id m.payload n in
            elim err [
              | some e ↦ reply_error a m (private_error_code e) e n'
              | none ↦ replied true (send_acknowledgement codec a m n')
            ]
      ])
      else replied true (send_acknowledgement codec a m n)

  -- The switch over the type of a valid message.
  unfoldable pub handle_command : ℕ → InboundMessage → Node → Handled
  handle_command a m n =
      if m.type == room_join
      then handle_join a m n
      else if m.type == room_leave
      then handle_leave a m n
      else if m.type == room_broadcast
      then handle_broadcast a m n
      else if m.type == private_send
      then handle_private a m n
      else replied true (send_acknowledgement codec a m n)

  -- A text frame, after decoding.
  unfoldable pub handle_decoded : ℕ → Bool → Decoded → Node → Handled
  handle_decoded a limited (decoded m) n =
      if limited
      then replied false
          (send_error codec a m.request_id rate_limit_exceeded (text "Rate limit exceeded.") n)
      else handle_command a m n
  handle_decoded a limited (rejected e) n =
      if limited
      then replied false
          (send_error codec a e.request_id rate_limit_exceeded (text "Rate limit exceeded.") n)
      else replied false (send_protocol_error codec a e n)

  unfoldable pub handle_frame : ℕ → Received → Bool → Node → Node × Option Str
  handle_frame a r limited n =
      if not (nat_eq r.message_type text_message)
      then (let (n', success, exit) = replied false (
            send_protocol_error codec a
              (record {
                code = invalid_message;
                message = text "Only JSON text frames are supported.";
                request_id = [];
              })
              n) in
          (count_inbound r.took (text "unknown") success n', exit))
      else let d = decode_inbound codec r.payload in
        let (n', success, exit) = handle_decoded a limited d n in
        (count_inbound r.took (decoded_type d) success n', exit)

  -- One round of readLoop on a frame; `deadline_ok` is whether SetReadDeadline succeeds.
  unfoldable pub read_frame : ℕ → Received → Bool → Node → Node × Option Str
  read_frame a r deadline_ok n =
      let n' = count_metric increment_messages_received n in
      let (n'', limited) = rate_limit a r.at n' in
      if ltb 0 (n.client a).read_timeout && not deadline_ok
      then (n'', some (text "read_deadline_failed"))
      else handle_frame a r limited n''
