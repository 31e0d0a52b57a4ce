-- ===== src/Realtime/Moves/Run.antt =====
-- The invariant of a node along any schedule of its steps.
use websocket.Common.{ℕ, Bool, List, [], ◌∷◌}
use websocket.Text.{Str}
use websocket.Broker.Event.{EventCodec}
use websocket.Realtime.Message.{Codec}
use websocket.Realtime.Rooms.{Authorizer}
use websocket.Realtime.Node.{Node}
use websocket.Realtime.Loop.{Step, step, run}
use websocket.Realtime.Moves.{Moves}
use websocket.Realtime.Moves.Loop.{Moves-step}
use websocket.Realtime.Moves.Sound.{IsSound}
use websocket.Realtime.Moves.Preserve.{Moves-IsSound}
use websocket.Realtime.Moves.Start.{new_node, new_node-IsSound}

module _ (codec : Codec) (events : EventCodec) (publish : Str → Str → Node → Node × Bool)
    (auth : Authorizer)
    (relays : (subject bytes : Str) (n : Node) → Moves n (publish subject bytes n).0) where
  pub step-IsSound :
      (n : Node) (s : Step codec events publish auth)
      → IsSound n
      → IsSound (step codec events publish auth n s)
  step-IsSound n s v =
      Moves-IsSound (Moves-step codec events publish auth relays n s v.readers v.callbacks) v

  run-IsSound :
      (n : Node) (ss : List (Step codec events publish auth))
      → IsSound n
      → IsSound (run codec events publish auth n ss)
  unfolding run
  run-IsSound n [] v = v
  run-IsSound n (s ∷ ss) v =
      run-IsSound (step codec events publish auth n s) ss (step-IsSound n s v)

  -- Whatever the sockets, the peers, the authorizer and the codec do, and in whatever order the steps
  -- of the sessions come, a process that starts empty keeps its invariant, if the broker's Publish
  -- touches the node only through operations of this package.
  pub run-new_node-IsSound :
      (max_rooms : ℕ) (has_broker : Bool) (node_id : Str)
      (ss : List (Step codec events publish auth))
      → IsSound (run codec events publish auth (new_node max_rooms has_broker node_id) ss)
  run-new_node-IsSound max_rooms has_broker node_id ss =
      run-IsSound _ ss (new_node-IsSound max_rooms has_broker node_id)
