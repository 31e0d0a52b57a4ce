-- ===== src/Realtime/Cluster.antt =====
-- go-server/internal/realtime/hub.go and go-server/internal/app/server.go: a message on its way from one
-- process to another, through whatever broker joins them.
use websocket.Common.{
  [], ◌≡◌, ◌≢◌, refl, ap, ◌∙◌, true, ◌&&◌, not, some, if_cases, if◌then◌else◌, arith, is_empty,
  ◌++◌, Bool,
}
use websocket.Text.{Str, ◌==◌, ==_iff, text}
use websocket.Observability.{
  increment_broker_publish_count, increment_broker_publish_errors, increment_broker_receive_count,
}
use websocket.Broker.Event.{BrokerEvent, EventCodec}
use websocket.Realtime.Message.{Codec}
use websocket.Realtime.Node.{Node, count_metric}
use websocket.Realtime.Hub.{local_broadcast, handle_broker_event, broadcast_room, publish_event}
use websocket.Realtime.Moves.Hub.{Moves-local_broadcast}
use websocket.Realtime.Moves.Settings.{Moves-SameSettings}
use websocket.Realtime.Wired.{on_message}

-- The event of a broadcast by the process `node`.
abbrev pub broadcast_event : Str → Str → Str → Str → BrokerEvent
broadcast_event node sender room payload = record {
  node_id = node;
  type = text "room_broadcast";
  room_id = room;
  sender_id = sender;
  recipient_id = [];
  payload = payload;
}

abbrev pub received : Node → Node
received m = count_metric increment_broker_receive_count m

-- How a publish is counted.
abbrev pub published_counted : Node × Bool → Node
published_counted (n, ok) =
    if ok
    then count_metric increment_broker_publish_count n
    else count_metric increment_broker_publish_errors n

module _ (codec : Codec) (events : EventCodec) (publish : Str → Str → Node → Node × Bool) where
  foreign_broadcast :
      (node sender room payload : Str) (m : Node)
      → node ≢ m.hub.node_id
      → handle_broker_event codec (broadcast_event node sender room payload) m
        ≡ local_broadcast codec sender room payload (received m)
  unfolding handle_broker_event ◌==◌
  foreign_broadcast node sender room payload m foreign =
      if_cases (λ (k : Node). k ≡ local_broadcast codec sender room payload (received m))
        (not (is_empty m.hub.node_id) && node == m.hub.node_id)
        (λ own. absurd (foreign ((==_iff node m.hub.node_id).0 (ground arith)))) (λ other. refl)

  publish_event-encoded :
      (subject bytes : Str) (event : BrokerEvent) (n : Node)
      → events.encode event ≡ some bytes
      → (publish_event codec events publish subject event n).0
        ≡ published_counted (publish subject bytes n)
  unfolding publish_event
  publish_event-encoded subject bytes event n encodes = rw (encodes, publish_event) (ground arith)

  -- If the event of a broadcast encodes to bytes that decode to the event again, a broadcast in a
  -- process with a broker is the local one followed by one publish of these bytes on the room's
  -- subject, and a process of another name that is handed the bytes does what a broadcast by the same
  -- sender in that process would do locally, and counts one event more.
  pub broadcast-on_message :
      (sender room payload bytes : Str) (n m : Node)
      → n.hub.broker ≡ true
      → n.hub.node_id ≢ m.hub.node_id
      → events.encode (broadcast_event n.hub.node_id sender room payload) ≡ some bytes
      → events.decode bytes ≡ some (broadcast_event n.hub.node_id sender room payload)
      → let subject = text "blockforge.rooms." ++ room in
        (broadcast_room codec events publish sender room payload n
          ≡ published_counted (publish subject bytes (local_broadcast codec sender room payload n)))
        × (on_message codec events subject bytes m
            ≡ local_broadcast codec sender room payload (received m))
  unfolding broadcast_room on_message
  broadcast-on_message sender room payload bytes n m on foreign encodes decodes =
      let local = local_broadcast codec sender room payload n in
      let (same_name, same_broker) =
        Moves-SameSettings (Moves-local_broadcast codec sender room payload n) in
      let subject = text "blockforge.rooms." ++ room in
      let encodes_here : events.encode (broadcast_event local.hub.node_id sender room payload)
          ≡ some bytes =
        ap (λ (t : Str). events.encode (broadcast_event t sender room payload)) same_name
        ∙ encodes in
      (
        if_cases (λ (k : Node). k ≡ published_counted (publish subject bytes local))
            local.hub.broker (λ set. publish_event-encoded subject bytes _ local encodes_here)
            (λ unset. absurd (ground (arith, same_broker))),
        rw (decodes, on_message) (foreign_broadcast n.hub.node_id sender room payload m foreign),
      )
