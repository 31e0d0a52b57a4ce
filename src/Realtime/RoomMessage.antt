-- ===== src/Realtime/RoomMessage.antt =====
-- go-server/internal/realtime/client.go (the case room.broadcast of readLoop), hub.go, and server.go: a
-- room message on its way from the sender's command to the queues of the room's members, in a server
-- without NATS.
use websocket.Common.{
  sym, subst, ℕ, ◌≡◌, ◌≢◌, refl, ap, ◌∙◌, true, false, none, some, Option-cases, inl, inr, ◌++◌,
  arith, nat_eq, nat_eq_iff, if◌then◌else◌, if_cases, is_empty, [],
}
use websocket.Text.{Str, text}
use websocket.Broker.Event.{BrokerEvent, EventCodec}
use websocket.Realtime.Message.{
  Codec, InboundMessage, OutboundMessage, EventPayload, room_broadcast, broadcast,
  new_outbound_message,
}
use websocket.Realtime.Rooms.{Authorizer, authorize_broadcast, member}
use websocket.Realtime.Node.{Node}
use websocket.Realtime.Client.{
  send_json, send_event, make_event, close, text_message, send_acknowledgement,
}
use websocket.Realtime.Hub.{local_broadcast, broadcast_room, publish_event}
use websocket.Realtime.Session.{handle_broadcast}
use websocket.Realtime.Moves.Sound.{IsSound}
use websocket.Realtime.Moves.Hub.{Moves-local_broadcast}
use websocket.Realtime.Moves.Settings.{Moves-SameSettings}
use websocket.Realtime.Delivery.{close-client, send_lem, offered}
use websocket.Realtime.Broadcast.{local_broadcast_lem, is_other}
use websocket.Realtime.Wired.{publish_here, no_echo, unreadable_ignored}
use websocket.Realtime.Cluster.{broadcast_event}

module _ (codec : Codec) (a b : ℕ) (other : nat_eq b a ≡ false) where
  close-elsewhere : (reason : Str) (n : Node) → (close a reason n).client b ≡ n.client b
  close-elsewhere reason n = close-client a reason n b ∙ ground arith

  send_json-elsewhere :
      (event : OutboundMessage) (n : Node) → (send_json codec a event n).0.client b ≡ n.client b
  unfolding send_json
  send_json-elsewhere event n = elim (Option-cases (codec.marshal event)) [
    | inl refused ↦ rw (refused, send_json) (close-elsewhere _ n)
    | inr (bytes, encoded) ↦
        rw (encoded, send_json) ((send_lem a text_message bytes n).1 b ∙ ground arith)
  ]

  -- An event that is sent to one session changes no other.
  send_event-elsewhere :
      (type request_id : Str) (payload : EventPayload) (n : Node)
      → (send_event codec a type request_id payload n).0.client b ≡ n.client b
  unfolding send_event make_event
  send_event-elsewhere type request_id payload n =
      elim (Option-cases (new_outbound_message codec n.events type request_id payload)) [
        | inl unmade ↦ rw (unmade, send_event) (close-elsewhere _ _)
        | inr (event, made) ↦ rw (made, send_event) (send_json-elsewhere event _)
      ]

-- What the event encodes to names, if it decodes at all, the process that it came from. Its payload
-- may come back in another form.
abbrev pub KeepsNode : EventCodec → BrokerEvent → Type 0
KeepsNode events event =
    (encoded : Str) (read : BrokerEvent)
    → events.encode event ≡ some encoded
    → events.decode encoded ≡ some read
    → read.node_id ≡ event.node_id

module _ (codec : Codec) (events : EventCodec) where
  -- What a process publishes itself changes none of its sessions.
  publish_event-sessions :
      (room : Str) (event : BrokerEvent) (n : Node) (b : ℕ)
      → KeepsNode events event
      → event.node_id ≡ n.hub.node_id
      → is_empty n.hub.node_id ≡ false
      → (publish_event codec events
            (publish_here codec events)
            (text "blockforge.rooms." ++ room)
            event
            n).0.client
          b
        ≡ n.client b
  unfolding publish_event
  publish_event-sessions room event n b keeps own named =
      elim (Option-cases (events.encode event)) [
        | inl unencoded ↦ rw (unencoded, publish_event) refl
        | inr (bytes, encoded) ↦ elim (Option-cases (events.decode bytes)) [
          | inl unread ↦
              rw (encoded, publish_event)
                (rw (unreadable_ignored codec events room bytes n unread) refl)
          | inr (read, decoded) ↦
              rw (encoded, publish_event)
                (rw
                  (no_echo codec events room read bytes n decoded
                    (keeps bytes read encoded decoded ∙ own) named)
                  refl)
        ]
      ]

  broadcast_room-sessions :
      (sender room payload : Str) (n : Node) (b : ℕ)
      → KeepsNode events (broadcast_event n.hub.node_id sender room payload)
      → is_empty n.hub.node_id ≡ false
      → (broadcast_room codec events (publish_here codec events) sender room payload n).client b
        ≡ (local_broadcast codec sender room payload n).client b
  unfolding broadcast_room
  broadcast_room-sessions sender room payload n b keeps named =
      let local = local_broadcast codec sender room payload n in
      let (same_name, same_broker) =
        Moves-SameSettings (Moves-local_broadcast codec sender room payload n) in
      let keeps_here =
        subst (λ (t : Str). KeepsNode events (broadcast_event t sender room payload))
          (sym same_name) keeps in
      if_cases (λ (k : Node). k.client b ≡ local.client b) local.hub.broker
        (λ set.
          publish_event-sessions room _ local b keeps_here refl (ap is_empty same_name ∙ named))
        (λ unset. refl)

  -- In a server without NATS whose process has a node identifier and keeps its invariant, a
  -- room.broadcast command of a session that may publish to the room, if its envelope can be made and
  -- encoded, offers exactly one frame, the encoded envelope, to every session of another user that is
  -- a member of the room, and leaves every other session but the sender's as it was: the message does
  -- not come back through the bus a second time, if what its broker event encodes to still names this
  -- process where it can be decoded.
  pub handle_broadcast_lem :
      (auth : Authorizer) (a : ℕ) (m : InboundMessage) (n : Node) (event : OutboundMessage)
      (bytes : Str)
      → IsSound n
      → is_empty n.hub.node_id ≡ false
      → (n.client a).has_hub ≡ true
      → authorize_broadcast auth n.hub (n.client a).self m.room_id ≡ none
      → new_outbound_message codec n.events room_broadcast []
          (broadcast m.room_id (n.client a).self.user_id m.payload)
        ≡ some event
      → codec.marshal event ≡ some bytes
      → KeepsNode events
          (broadcast_event n.hub.node_id (n.client a).self.user_id m.room_id m.payload)
      → (b : ℕ) → b ≢ a
      → (handle_broadcast codec events (publish_here codec events) auth a m n).0.client b ≡ (
          if is_other
            (n.client a).self.user_id
            b
            (member n.hub.rooms m.room_id (n.client b).self.connection_id)
          then offered (record { message_type = text_message; payload = bytes }) (n.client b)
          else n.client b)
  unfolding handle_broadcast send_acknowledgement
  handle_broadcast_lem auth a m n event bytes v named has allowed made encodes keeps b apart =
      let sender = (n.client a).self.user_id in
      let other : nat_eq b a ≡ false = ground (arith, nat_eq_iff b a) in
      rw (has, handle_broadcast)
        (rw (allowed, handle_broadcast)
          (send_event-elsewhere codec a b other _ _ _ _
            ∙ broadcast_room-sessions sender m.room_id m.payload n b keeps named
            ∙ local_broadcast_lem codec sender m.room_id m.payload n event bytes v made encodes b))
