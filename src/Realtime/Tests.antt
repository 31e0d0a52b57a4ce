-- ===== src/Realtime/Tests.antt =====
-- A concrete node, and the theorems about the hub, the sessions and the messages at it.
mod Frames
mod Rooms
mod Wired
mod RoomMessage
use websocket.Common.{
  ℕ, ◌+◌, ◌*◌, ◌≤◌, ◌≡◌, ◌↔◌, ◌⊎◌, ◌≢◌, refl, Bool, true, false, ◌&&◌, not, none, some, Option,
  List, [], ◌∷◌, ◌++◌, arith, nat_eq, ltb, if◌then◌else◌, length, is_some, inl, inr,
}
use websocket.Text.{Str, ◌==◌, text, trim_space}
use websocket.Dict.{insert, lookup}
use websocket.Broker.Event.{BrokerEvent, EventCodec}
use websocket.Realtime.Message.{
  Codec, InboundMessage, OutboundMessage, new_outbound_message, broadcast, private, room_broadcast,
  room_join, private_send, validate, decode_inbound, decoded,
}
use websocket.Realtime.Rooms.{
  leave_all, add_member, at_limit, install, set_broker, ClientRef, Hub, HubError, room_limit,
  allow_all, new_hub, member, join, leave, unregister, is_active, authorize_broadcast, find_client,
  snapshot, recipient_offline, recipient_overloaded,
}
use websocket.Realtime.Rooms.Invariant.{IsConsistent}
use websocket.Realtime.Rooms.Changes.{
  change, changes, installs, joins, changes-new_hub-IsConsistent,
}
use websocket.Realtime.Rooms.Specs.{
  unregister_lem, join-ok, Refusal, join-refused, join-again, leave_lem, leave-join,
  authorize_broadcast_iff,
}
use websocket.Realtime.Node.{Node, Client, Frame}
use websocket.Realtime.Client.{new_client, count_close, run_on_close, close, send, text_message}
use websocket.Realtime.Hub.{
  publish_event, relay_private, replaced_by, register, close_all, local_broadcast, send_private,
  deliver,
}
use websocket.Realtime.Session.{Received}
use websocket.Realtime.Loop.{
  session_options, register_session, step, SessionConfig, Step, creates, registers, starts, reads,
  writes, closes, wrote, run,
}
use websocket.Realtime.Moves.{Moves, one, publishes}
use websocket.Realtime.Moves.Sound.{IsSound}
use websocket.Realtime.Moves.Start.{new_node}
use websocket.Realtime.Moves.Complete.{IsComplete}
use websocket.Realtime.Moves.Reached.{run-new_node-IsComplete, run-close_all}
use websocket.Realtime.Moves.Run.{run-new_node-IsSound}
use websocket.Realtime.Moves.Final.{Persists, run-Persists}
use websocket.Realtime.Delivery.{
  shut, offered, send_lem, has_address, AddressesDistinct, deliver_lem,
}
use websocket.Realtime.Broadcast.{is_other, local_broadcast_lem}
use websocket.Realtime.Registry.{is_replaced, register_lem, close_all_lem}
use websocket.Realtime.Private.{has_room, send_private_alone, send_private_relayed}

abbrev pub ann : ClientRef
ann = record { address = 0; connection_id = text "c0"; user_id = text "ann" }

abbrev pub bob : ClientRef
bob = record { address = 1; connection_id = text "c1"; user_id = text "bob" }

abbrev pub lobby : Str
lobby = text "lobby"

abbrev pub join_lobby : InboundMessage
join_lobby = record {
  version = text "1";
  type = room_join;
  request_id = text "q1";
  room_id = lobby;
  recipient_id = [];
  payload = [];
}

abbrev pub test_codec : Codec
test_codec = record {
  decode_message = λ s. some (join_lobby, []);
  at_eof = λ s. true;
  is_object = λ s. true;
  marshal = λ event. some event.type;
  random = λ n. some (0 ∷ 0 ∷ 0 ∷ 0 ∷ 0 ∷ 0 ∷ 0 ∷ 0 ∷ 0 ∷ 0 ∷ 0 ∷ 0 ∷ 0 ∷ 0 ∷ 0 ∷ 0 ∷ []);
  random_error = text "no entropy";
  encode_error = text "no json";
  publish_error = text "no broker";
  now = λ n. 7;
}

abbrev pub test_events : EventCodec
test_events = record { encode = λ e. some e.payload; decode = λ s. none }

-- A broker that keeps what it is handed.
abbrev pub log_publish : Str → Str → Node → Node × Bool
log_publish subject bytes n = (record n { published = n.published ++ (subject, bytes) ∷ [] }, true)

pub log_publish-Moves : (subject bytes : Str) (n : Node) → Moves n (log_publish subject bytes n).0
log_publish-Moves subject bytes n = one (publishes n _)

abbrev pub settings : SessionConfig
settings = record {
  outbound_queue_capacity = 2;
  websocket_read_timeout = 10;
  websocket_write_timeout = 10;
  websocket_max_message_size = 1000;
  rate_limit_messages = 3;
  rate_limit_interval = 10;
}

abbrev pub join_frame : Received
join_frame = record { message_type = text_message; payload = text "{}"; at = 1; took = 1 }

-- ann and bob connect, and both join the lobby.
abbrev pub schedule : List (Step test_codec test_events log_publish allow_all)
schedule =
    creates settings (text "c0") (text "ann") 0
    ∷ creates settings (text "c1") (text "bob") 0
    ∷ registers 1
    ∷ registers 0
    ∷ starts 0 true
    ∷ starts 1 true
    ∷ reads 0 join_frame true
    ∷ reads 1 join_frame true
    ∷ writes 1 wrote
    ∷ []

abbrev pub two_joined : Node
two_joined = run test_codec test_events log_publish allow_all (new_node 2 false []) schedule

two_joined-IsSound : IsSound two_joined
two_joined-IsSound =
    run-new_node-IsSound test_codec test_events log_publish allow_all log_publish-Moves 2 false []
      schedule

run-new_node-IsSound_example :
    IsSound
      (run test_codec test_events log_publish allow_all (new_node 2 true (text "n1")) schedule)
run-new_node-IsSound_example =
    run-new_node-IsSound test_codec test_events log_publish allow_all log_publish-Moves 2 true
      (text "n1") schedule

run-Persists_example :
    Persists two_joined
      (run test_codec test_events log_publish allow_all two_joined (closes 0 (text "bye") ∷ []))
run-Persists_example =
    run-Persists test_codec test_events log_publish allow_all log_publish-Moves two_joined
      (closes 0 (text "bye") ∷ []) two_joined-IsSound

local_broadcast_lem_example :
    (local_broadcast test_codec (text "ann") lobby (text "{}") two_joined).client 1 ≡ (
      if is_other
        (text "ann")
        1
        (member two_joined.hub.rooms lobby (two_joined.client 1).self.connection_id)
      then offered
          (record { message_type = text_message; payload = room_broadcast })
          (two_joined.client 1)
      else two_joined.client 1)
unfolding new_outbound_message
local_broadcast_lem_example =
    local_broadcast_lem test_codec (text "ann") lobby (text "{}") two_joined _ room_broadcast
      two_joined-IsSound refl refl 1

abbrev ann_again : ClientRef
ann_again = record { address = 2; connection_id = text "c2"; user_id = text "ann" }

register_lem_example : find_client (register ann_again two_joined).hub (text "ann") ≡ some ann_again
unfolding ◌==◌
register_lem_example = (register_lem ann_again two_joined two_joined-IsSound).0 (text "ann")

abbrev greeting : OutboundMessage
greeting = record {
  version = text "1";
  type = room_broadcast;
  request_id = [];
  event_id = text "evt_0";
  payload = broadcast lobby (text "ann") (text "{}");
  sent_at = 7;
}

send_private_alone_example :
    (send_private test_codec test_events log_publish
      (text "ann")
      (text "eve")
      (text "{}")
      (new_node 2 false [])).1
    ≡ some recipient_offline
unfolding new_outbound_message new_node set_broker new_hub find_client lookup
send_private_alone_example =
    (send_private_alone test_codec test_events log_publish (text "ann") (text "eve") (text "{}")
      (new_node 2 false []) _ private_send refl refl refl).0

send_private_relayed_example :
    (send_private test_codec test_events log_publish
      (text "ann")
      (text "eve")
      (text "{}")
      (new_node 2 true (text "n1"))).1
    ≢ some recipient_offline
unfolding new_outbound_message new_node set_broker
send_private_relayed_example =
    (send_private_relayed test_codec test_events log_publish (text "ann") (text "eve") (text "{}")
      (new_node 2 true (text "n1")) refl _ private_send refl refl).1

-- The sender is told that her message to a user without a session was delivered.
offline_unreported :
    (send_private test_codec test_events log_publish
      (text "ann")
      (text "eve")
      (text "{}")
      (new_node 2 true (text "n1"))).1
    ≡ none
unfolding send_private relay_private publish_event find_client lookup new_node set_broker new_hub
offline_unreported = refl

-- ann connects twice, and her second session replaces the first.
abbrev replacing : List (Step test_codec test_events log_publish allow_all)
replacing =
    creates settings (text "c0") (text "ann") 0
    ∷ creates settings (text "c1") (text "ann") 0
    ∷ registers 0
    ∷ registers 1
    ∷ []

run-new_node-IsComplete_example :
    IsComplete
      (run test_codec test_events log_publish allow_all (new_node 2 true (text "n1")) schedule)
run-new_node-IsComplete_example =
    run-new_node-IsComplete test_codec test_events log_publish allow_all log_publish-Moves 2 true
      (text "n1") schedule

run-close_all_example :
    ((close_all (text "shutdown") (
        run test_codec test_events log_publish allow_all
          (new_node 2 true (text "n1"))
          replacing)).client
      0).closed
    ≡ true
unfolding run step register_session register replaced_by install new_node set_broker new_hub close
    run_on_close count_close unregister is_active leave_all lookup insert ◌==◌ new_client
    session_options
run-close_all_example =
    run-close_all test_codec test_events log_publish allow_all log_publish-Moves 2 true (text "n1")
      (text "shutdown") replacing 0 refl
