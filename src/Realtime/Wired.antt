-- ===== src/Realtime/Wired.antt =====
-- go-server/internal/app/server.go (Serve): the node of a server that has no NATS address, whose hub
-- publishes to the in-memory bus that the server itself listens to.
use websocket.Common.{
  ℕ, ◌≡◌, refl, ap, Bool, true, false, ◌&&◌, not, none, some, Option-cases, Bool-cases, inl, inr,
  List, ◌++◌, arith, is_empty, if_cases,
}
use websocket.Text.{Str, ◌==◌, ==_iff, text, has_suffix, has_prefix, trim_suffix}
use websocket.Broker.Event.{BrokerEvent, EventCodec}
use websocket.Broker.Memory.{
  MemoryBroker, publish, subscribe, new_memory_broker, match_subject, matches, call_each,
}
use websocket.Realtime.Message.{Codec}
use websocket.Realtime.Rooms.{Authorizer}
use websocket.Realtime.Node.{Node}
use websocket.Realtime.Hub.{handle_broker_event}
use websocket.Realtime.Loop.{Step, run}
use websocket.Realtime.Moves.{Moves, done}
use websocket.Realtime.Moves.Hub.{Moves-handle_broker_event}
use websocket.Realtime.Moves.Sound.{IsSound}
use websocket.Realtime.Moves.Start.{new_node}
use websocket.Realtime.Moves.Run.{run-new_node-IsSound}

-- The handler that Serve subscribes.
unfoldable pub on_message : Codec → EventCodec → Str → Str → Node → Node
on_message codec events subject bytes n = elim (events.decode bytes) [
  | none ↦ n
  | some event ↦ handle_broker_event codec event n
]

unfoldable pub server_bus : Codec → EventCodec → MemoryBroker Node
server_bus codec events =
    (subscribe (text "blockforge.>") (on_message codec events) new_memory_broker).0

unfoldable pub publish_here : Codec → EventCodec → Str → Str → Node → Node × Bool
publish_here codec events subject bytes n = publish subject bytes (server_bus codec events) n

module _ (codec : Codec) (events : EventCodec) where
  Moves-on_message :
      (subject bytes : Str) (n : Node) → Moves n (on_message codec events subject bytes n)
  unfolding on_message
  Moves-on_message subject bytes n = elim (Option-cases (events.decode bytes)) [
    | inl unreadable ↦ rw (unreadable, on_message) done
    | inr (event, read) ↦ rw (read, on_message) (Moves-handle_broker_event codec event n)
  ]

  Moves-publish_here :
      (subject bytes : Str) (n : Node) → Moves n (publish_here codec events subject bytes n).0
  unfolding publish_here server_bus publish subscribe new_memory_broker matches call_each
  Moves-publish_here subject bytes n =
      elim (Bool-cases (match_subject (text "blockforge.>") subject)) [
        | inl takes ↦ rw takes (Moves-on_message subject bytes n)
        | inr passes ↦ rw passes done
      ]

  -- The process of a server without NATS, whose broker is the in-memory bus that calls the process's
  -- own handler, keeps its invariant from its start along any schedule of steps, whatever the codecs,
  -- the sockets, the peers and the authorizer do.
  pub server_run-IsSound :
      (auth : Authorizer) (max_rooms : ℕ) (node_id : Str)
      (ss : List (Step codec events (publish_here codec events) auth))
      → IsSound
          (run codec events (publish_here codec events) auth (new_node max_rooms true node_id) ss)
  server_run-IsSound auth max_rooms node_id ss =
      run-new_node-IsSound codec events (publish_here codec events) auth Moves-publish_here
        max_rooms true node_id ss

  own_ignored :
      (event : BrokerEvent) (n : Node)
      → event.node_id ≡ n.hub.node_id
      → is_empty n.hub.node_id ≡ false
      → handle_broker_event codec event n ≡ n
  unfolding handle_broker_event
  own_ignored event n own named =
      let same : (event.node_id == n.hub.node_id) ≡ true =
        (==_iff event.node_id n.hub.node_id).1 own in
      if_cases (λ (m : Node). m ≡ n)
        (not (is_empty n.hub.node_id) && event.node_id == n.hub.node_id) (λ ignored. refl)
        (λ taken. absurd (ground arith))

  -- In a process with a node identifier, bytes that decode to an event of this process and are
  -- published on a room's subject come back to the process through the bus and change nothing.
  pub no_echo :
      (room : Str) (event : BrokerEvent) (bytes : Str) (n : Node)
      → events.decode bytes ≡ some event
      → event.node_id ≡ n.hub.node_id
      → is_empty n.hub.node_id ≡ false
      → publish_here codec events (text "blockforge.rooms." ++ room) bytes n ≡ (n, true)
  unfolding publish_here server_bus publish subscribe new_memory_broker matches call_each on_message
      match_subject ◌==◌ has_suffix has_prefix trim_suffix
  no_echo room event bytes n read own named =
      rw (read, on_message) (ap (λ (m : Node). (m, true)) (own_ignored event n own named))

  -- Bytes that decode to no event change nothing either.
  pub unreadable_ignored :
      (room bytes : Str) (n : Node)
      → events.decode bytes ≡ none
      → publish_here codec events (text "blockforge.rooms." ++ room) bytes n ≡ (n, true)
  unfolding publish_here server_bus publish subscribe new_memory_broker matches call_each on_message
      match_subject ◌==◌ has_suffix has_prefix trim_suffix
  unreadable_ignored room bytes n unread = rw (unread, on_message) refl
