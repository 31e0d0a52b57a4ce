-- ===== src/Realtime/Tests/RoomMessage.antt =====
-- A room message in a named server without NATS, with a codec of broker events that loses nothing.
use websocket.Common.{
  sym, ◌∙◌, zero, suc, ◌≡◌, refl, ap, subst, true, false, is_empty, is_some, some, List, [], ◌∷◌,
  arith, if◌then◌else◌,
}
use websocket.Text.{Str, text, ◌==◌}
use websocket.Broker.Event.{BrokerEvent, EventCodec}
use websocket.Realtime.Message.{new_outbound_message, room_broadcast, InboundMessage}
use websocket.Realtime.Rooms.{
  authorize_broadcast, allow_all, member, join, at_limit, add_member, is_active, set_broker,
  new_hub, install,
}
use websocket.Realtime.Node.{Node, set_hub}
use websocket.Realtime.Client.{text_message, new_client}
use websocket.Realtime.Session.{handle_broadcast}
use websocket.Realtime.Loop.{run, Step, step, creates, registers, register_session, session_options}
use websocket.Realtime.Hub.{register, replaced_by}
use websocket.Dict.{lookup, insert}
use websocket.Realtime.Moves.{one, joins}
use websocket.Realtime.Moves.Preserve.{Moves-IsSound}
use websocket.Realtime.Moves.Sound.{IsSound}
use websocket.Realtime.Moves.Start.{new_node}
use websocket.Realtime.Moves.Run.{run-new_node-IsSound}
use websocket.Realtime.Broadcast.{is_other}
use websocket.Realtime.Delivery.{offered}
use websocket.Realtime.Wired.{publish_here}
use websocket.Realtime.Cluster.{broadcast_event}
use websocket.Realtime.RoomMessage.{KeepsNode, handle_broadcast_lem}
use websocket.Realtime.Tests.{
  test_codec, test_events, log_publish, log_publish-Moves, settings, lobby,
}

-- A field that ends at a zero, with every byte raised by one.
abbrev quote : Str → Str → Str
quote [] rest = 0 ∷ rest
quote (c ∷ s) rest = suc c ∷ quote s rest

abbrev unquote : Str → Str × Str
unquote [] = ([], [])
unquote (zero ∷ s) = ([], s)
unquote (suc c ∷ s) = let (field, rest) = unquote s in (c ∷ field, rest)

unquote-quote : (s rest : Str) → unquote (quote s rest) ≡ (s, rest)
unquote-quote [] rest = refl
unquote-quote (c ∷ s) rest =
    ap (λ (p : Str × Str). let (field, after) = p in (c ∷ field, after)) (unquote-quote s rest)

abbrev quoted_events : EventCodec
quoted_events = record {
  encode = λ e. some (
      quote e.node_id (
        quote e.type
          (quote e.room_id (quote e.sender_id (quote e.recipient_id (quote e.payload []))))));
  decode = λ s.
      let (node_id, s1) = unquote s in
      let (type, s2) = unquote s1 in
      let (room_id, s3) = unquote s2 in
      let (sender_id, s4) = unquote s3 in
      let (recipient_id, s5) = unquote s4 in
      let (payload, s6) = unquote s5 in
      some (record {
        node_id = node_id;
        type = type;
        room_id = room_id;
        sender_id = sender_id;
        recipient_id = recipient_id;
        payload = payload;
      });
}

quoted : BrokerEvent → Str
quoted e =
    quote e.node_id (
      quote e.type
        (quote e.room_id (quote e.sender_id (quote e.recipient_id (quote e.payload [])))))

decode-quoted : (e : BrokerEvent) → quoted_events.decode (quoted e) ≡ some e
unfolding quoted
decode-quoted e =
    rw
      (
        unquote-quote e.node_id _,
        unquote-quote e.type _,
        unquote-quote e.room_id _,
        unquote-quote e.sender_id _,
        unquote-quote e.recipient_id _,
        unquote-quote e.payload [],
      )
      refl

quoted_decodes :
    (event : BrokerEvent) (bytes : Str)
    → quoted_events.encode event ≡ some bytes
    → quoted_events.decode bytes ≡ some event
unfolding quoted
quoted_decodes event bytes encoded =
    let same : quoted event ≡ bytes = cc in
    subst (λ (s : Str). quoted_events.decode s ≡ some event) same (decode-quoted event)

quoted_keeps : (event : BrokerEvent) → KeepsNode quoted_events event
quoted_keeps event encoded read e d =
    let same : some read ≡ some event = sym d ∙ quoted_decodes event encoded e in
    let back : read ≡ event = cc in ap (λ (ev : BrokerEvent). ev.node_id) back

-- ann and bob connect, and bob joins the lobby.
abbrev connecting : List (Step test_codec test_events log_publish allow_all)
connecting =
    creates settings (text "c0") (text "ann") 0
    ∷ creates settings (text "c1") (text "bob") 0
    ∷ registers 1
    ∷ registers 0
    ∷ []

abbrev connected : Node
connected =
    run test_codec test_events log_publish allow_all (new_node 2 true (text "n1")) connecting

abbrev bob_joined : Node
bob_joined = set_hub (join allow_all connected.hub (connected.client 1).self lobby).0 connected

bob_joined-IsSound : IsSound bob_joined
unfolding run step new_client new_node register_session register replaced_by lookup set_broker
    new_hub install insert ◌==◌ session_options
bob_joined-IsSound = Moves-IsSound (one (joins connected allow_all 1 lobby (omega arith))) (
    run-new_node-IsSound test_codec test_events log_publish allow_all log_publish-Moves 2 true
      (text "n1") connecting)

abbrev ann_writes : InboundMessage
ann_writes = record {
  version = text "1";
  type = room_broadcast;
  request_id = text "q2";
  room_id = lobby;
  recipient_id = [];
  payload = text "{}";
}

bob_joined-settings :
    (is_empty bob_joined.hub.node_id ≡ false)
    × ((bob_joined.client 0).has_hub ≡ true)
    × (is_some (member bob_joined.hub.rooms lobby (bob_joined.client 1).self.connection_id) ≡ true)
unfolding run step new_client new_node register_session register replaced_by lookup set_broker
    new_hub install insert ◌==◌ session_options join at_limit add_member member is_active
bob_joined-settings = (refl, refl, refl)

handle_broadcast_lem_example :
    (handle_broadcast test_codec quoted_events
        (publish_here test_codec quoted_events)
        allow_all
        0
        ann_writes
        bob_joined).0.client
      1
    ≡ (if is_other
          (bob_joined.client 0).self.user_id
          1
          (member bob_joined.hub.rooms lobby (bob_joined.client 1).self.connection_id)
        then offered
            (record { message_type = text_message; payload = room_broadcast })
            (bob_joined.client 1)
        else bob_joined.client 1)
unfolding new_outbound_message authorize_broadcast
handle_broadcast_lem_example =
    handle_broadcast_lem test_codec quoted_events allow_all 0 ann_writes bob_joined _ room_broadcast
      bob_joined-IsSound bob_joined-settings.0 bob_joined-settings.1 (ground arith) refl refl
      (quoted_keeps (
        broadcast_event bob_joined.hub.node_id (bob_joined.client 0).self.user_id lobby
          (text "{}")))
      1 (λ e. omega (arith, e))
