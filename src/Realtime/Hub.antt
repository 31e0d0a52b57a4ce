-- ===== src/Realtime/Hub.antt =====
-- go-server/internal/realtime/hub.go: the operations of the hub that reach sessions or the broker.
-- Publish of the broker is a parameter: it may change the node, since a broker may call the node's
-- own handler before it returns, and reports whether its error is nil.
use websocket.Common.{
  Bool, true, false, ◌&&◌, not, List, [], ◌∷◌, ◌++◌, Option, none, some, nat_eq, if◌then◌else◌,
  is_empty,
}
use websocket.Text.{Str, ◌==◌, text}
use websocket.Dict.{Dict, lookup}
use websocket.Observability.{
  increment_broker_publish_count, increment_broker_publish_errors, increment_broker_receive_count,
}
use websocket.Broker.Event.{BrokerEvent, EventCodec}
use websocket.Realtime.Message.{
  Codec, OutboundMessage, broadcast, private, draining, room_broadcast, private_send,
  server_draining,
}
use websocket.Realtime.Rooms.{
  ClientRef, Hub, HubError, recipient_offline, recipient_overloaded, event_id_failed, encode_failed,
  publish_failed, install, find_client, snapshot,
}
use websocket.Realtime.Node.{Node, set_hub, count_metric}
use websocket.Realtime.Client.{close, send_json, make_event}

-- Whether a session that is not this one stands in the registry under this one's user.
unfoldable pub replaced_by : Hub → ClientRef → Option ClientRef
replaced_by h c = elim (lookup c.user_id h.clients) [
  | none ↦ none
  | some old ↦ if nat_eq old.address c.address then none else some old
]

unfoldable pub register : ClientRef → Node → Node
register c n =
    let n' = set_hub (install n.hub c) n in
    elim (replaced_by n.hub c) [
      | none ↦ n'
      | some old ↦ close old.address (text "duplicate_session_replaced") n'
    ]

-- The loop of CloseAll over its snapshot.
unfoldable pub close_each : List ClientRef → Str → Node → Node
close_each [] reason n = n
close_each (c ∷ cs) reason n = close_each cs reason (close c.address reason n)

unfoldable pub close_all : Str → Node → Node
close_all reason n = close_each (snapshot n.hub) reason n

-- The members of a room whose user is not the sender.
unfoldable pub recipients : Str → Dict ClientRef → List ClientRef
recipients sender [] = []
recipients sender ((_, c) ∷ m) =
    let rest = recipients sender m in if c.user_id == sender then rest else c ∷ rest

module _ (codec : Codec) where
  -- One SendJSON to each session, whatever the others return.
  unfoldable pub deliver : OutboundMessage → List ClientRef → Node → Node
  deliver event [] n = n
  deliver event (c ∷ cs) n = deliver event cs (send_json codec c.address event n).0

  unfoldable pub broadcast_draining : Node → Node
  broadcast_draining n =
      let (n', made) =
        make_event codec server_draining []
          (draining (text "Server is shutting down. Please reconnect.")) n in
      elim made [ none ↦ n' | some event ↦ deliver event (snapshot n'.hub) n' ]

  unfoldable pub local_broadcast : Str → Str → Str → Node → Node
  local_broadcast sender room payload n = elim (lookup room n.hub.rooms) [
    | none ↦ n
    | some members ↦
        let (n', made) = make_event codec room_broadcast [] (broadcast room sender payload) n in
        if is_empty members
        then n
        else elim made [ none ↦ n' | some event ↦ deliver event (recipients sender members) n' ]
  ]

  unfoldable pub local_send_private : Str → Str → Str → Node → Node
  local_send_private sender recipient payload n = elim (find_client n.hub recipient) [
    | none ↦ n
    | some c ↦
        let (n', made) = make_event codec private_send [] (private sender recipient payload) n in
        elim made [ none ↦ n' | some event ↦ (send_json codec c.address event n').0 ]
  ]

  unfoldable pub handle_broker_event : BrokerEvent → Node → Node
  handle_broker_event event n =
      let n' = count_metric increment_broker_receive_count n in
      if not (is_empty n.hub.node_id) && event.node_id == n.hub.node_id
      then n
      else if event.type == text "room_broadcast"
      then local_broadcast event.sender_id event.room_id event.payload n'
      else if event.type == text "private_send"
      then local_send_private event.sender_id event.recipient_id event.payload n'
      else n'

  -- The local delivery of SendPrivate: whether the event could be made, and localErr.
  unfoldable pub send_local : Str → Str → Str → ClientRef → Node → Node × Bool × Option HubError
  send_local sender recipient payload c n =
      let (n', made) = make_event codec private_send [] (private sender recipient payload) n in
      elim made [
        | none ↦ (n', false, some event_id_failed)
        | some event ↦
            let (n'', sent) = send_json codec c.address event n' in
            (n'', true, if sent then none else some recipient_overloaded)
      ]

  module _ (events : EventCodec) (publish : Str → Str → Node → Node × Bool) where
    -- Encode and Publish, with their counters. The error, if there is one, is the result.
    unfoldable pub publish_event : Str → BrokerEvent → Node → Node × Option HubError
    publish_event subject event n = elim (events.encode event) [
      | none ↦ (count_metric increment_broker_publish_errors n, some encode_failed)
      | some bytes ↦
          let (n', ok) = publish subject bytes n in
          if ok
          then (count_metric increment_broker_publish_count n', none)
          else (count_metric increment_broker_publish_errors n', some publish_failed)
    ]

    unfoldable pub broadcast_room : Str → Str → Str → Node → Node
    broadcast_room sender room payload n =
        let n' = local_broadcast sender room payload n in
        let event : BrokerEvent = record {
          node_id = n'.hub.node_id;
          type = text "room_broadcast";
          room_id = room;
          sender_id = sender;
          recipient_id = [];
          payload = payload;
        } in
        if n'.hub.broker then (publish_event (text "blockforge.rooms." ++ room) event n').0 else n'

    -- The rest of SendPrivate: `ok`, `localErr`, and the broker as it was at the start.
    unfoldable pub relay_private :
        Bool → Str → Str → Str → Str → Bool → Option HubError → Node → Node × Option HubError
    relay_private has_broker node sender recipient payload ok local_err n =
        let event : BrokerEvent = record {
          node_id = node;
          type = text "private_send";
          room_id = [];
          sender_id = sender;
          recipient_id = recipient;
          payload = payload;
        } in
        if has_broker
        then (let (n', err) = publish_event (text "blockforge.users." ++ recipient) event n in
            (n', elim err [ none ↦ none | some e ↦ if ok then local_err else some e ]))
        else (n, if ok then local_err else some recipient_offline)

    unfoldable pub send_private : Str → Str → Str → Node → Node × Option HubError
    send_private sender recipient payload n = elim (find_client n.hub recipient) [
      | none ↦ relay_private n.hub.broker n.hub.node_id sender recipient payload false none n
      | some c ↦
          let (n', made, local_err) = send_local sender recipient payload c n in
          if made
          then relay_private n.hub.broker n.hub.node_id sender recipient payload true local_err n'
          else (n', local_err)
    ]
