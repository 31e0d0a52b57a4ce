-- ===== src/Realtime/Tests/Wired.antt =====
-- The theorems about a server without NATS, at a codec that knows one event.
use websocket.Common.{◌≡◌, refl, true, some, [], ◌∷◌, ◌++◌}
use websocket.Realtime.Hub.{broadcast_room, local_broadcast}
use websocket.Realtime.Cluster.{broadcast-on_message, received, published_counted}
use websocket.Text.{text}
use websocket.Broker.Event.{BrokerEvent, EventCodec}
use websocket.Realtime.Rooms.{allow_all, set_broker}
use websocket.Realtime.Loop.{creates, registers, starts, reads, run}
use websocket.Realtime.Moves.Sound.{IsSound}
use websocket.Realtime.Moves.Start.{new_node}
use websocket.Realtime.Wired.{on_message, publish_here, server_run-IsSound, no_echo}
use websocket.Realtime.Tests.{test_codec, settings, join_frame}

abbrev lobby_event : BrokerEvent
lobby_event = record {
  node_id = text "n1";
  type = text "room_broadcast";
  room_id = text "lobby";
  sender_id = text "ann";
  recipient_id = [];
  payload = text "{}";
}

abbrev one_event : EventCodec
one_event = record { encode = λ e. some (text "lobby_event"); decode = λ s. some lobby_event }

server_run-IsSound_example : IsSound (
    run test_codec one_event
      (publish_here test_codec one_event)
      allow_all
      (new_node 2 true (text "n1"))
      (creates settings (text "c0") (text "ann") 0
        ∷ registers 0
        ∷ starts 0 true
        ∷ reads 0 join_frame true
        ∷ []))
server_run-IsSound_example = server_run-IsSound test_codec one_event allow_all 2 (text "n1") (
    creates settings (text "c0") (text "ann") 0
    ∷ registers 0
    ∷ starts 0 true
    ∷ reads 0 join_frame true
    ∷ [])

no_echo_example :
    publish_here test_codec one_event
      (text "blockforge.rooms." ++ text "lobby")
      (text "lobby_event")
      (new_node 2 true (text "n1"))
    ≡ (new_node 2 true (text "n1"), true)
unfolding new_node set_broker
no_echo_example =
    no_echo test_codec one_event (text "lobby") lobby_event (text "lobby_event")
      (new_node 2 true (text "n1")) refl refl refl

broadcast-on_message_example :
    (broadcast_room test_codec one_event
        (publish_here test_codec one_event)
        (text "ann")
        (text "lobby")
        (text "{}")
        (new_node 2 true (text "n1"))
      ≡ published_counted (
          publish_here test_codec one_event
            (text "blockforge.rooms." ++ text "lobby")
            (text "lobby_event")
            (local_broadcast test_codec
              (text "ann")
              (text "lobby")
              (text "{}")
              (new_node 2 true (text "n1")))))
    × (on_message test_codec one_event
          (text "blockforge.rooms." ++ text "lobby")
          (text "lobby_event")
          (new_node 2 true (text "n1b"))
        ≡ local_broadcast test_codec
            (text "ann")
            (text "lobby")
            (text "{}")
            (received (new_node 2 true (text "n1b"))))
unfolding new_node set_broker
broadcast-on_message_example =
    broadcast-on_message test_codec one_event (publish_here test_codec one_event) (text "ann")
      (text "lobby") (text "{}") (text "lobby_event") (new_node 2 true (text "n1"))
      (new_node 2 true (text "n1b")) refl (λ e. cc) refl refl
