-- ===== src/Realtime/Moves/Reached.antt =====
-- Along any schedule of steps, the registry knows every open session that has been registered, so that
-- CloseAll reaches it.
use websocket.Common.{[], ◌∷◌, List, ℕ, ◌≡◌, Bool, true, Bool-cases, inl, inr, arith}
use websocket.Text.{Str}
use websocket.Realtime.Node.{Node}
use websocket.Realtime.Loop.{Step, step, run}
use websocket.Realtime.Hub.{close_all}
use websocket.Realtime.Rooms.{snapshot, Authorizer}
use websocket.Realtime.Message.{Codec}
use websocket.Broker.Event.{EventCodec}
use websocket.Realtime.Moves.Loop.{Moves-step}
use websocket.Realtime.Moves.Run.{run-new_node-IsSound, step-IsSound}
use websocket.Realtime.Moves.Start.{new_node, new_node-IsSound}
use websocket.Realtime.Registry.{close_all_lem, has_address-snapshot}
use websocket.Realtime.Moves.{Moves}
use websocket.Realtime.Moves.Sound.{IsSound}
use websocket.Realtime.Moves.Close.{lt_of_open}
use websocket.Realtime.Moves.Complete.{IsComplete, Moves-IsComplete}

pub close_all-registered :
    (reason : Str) (n : Node) (b : ℕ)
    → IsSound n
    → IsComplete n
    → (n.client b).registered ≡ true
    → ((close_all reason n).client b).closed ≡ true
unfolding snapshot
close_all-registered reason n b sound v known =
    let now = (close_all_lem reason n sound).0 b in
    elim (Bool-cases (n.client b).closed) [
      | inl gone ↦ ground arith
      | inr alive ↦
          let reached =
            has_address-snapshot n.hub.clients (n.client b).self.user_id (n.client b).self
              (v b alive known) in
          let here = sound.addressed b (lt_of_open n b sound alive) in ground arith
    ]

pub new_node-IsComplete :
    (max_rooms : ℕ) (has_broker : Bool) (node_id : Str)
    → IsComplete (new_node max_rooms has_broker node_id)
unfolding new_node
new_node-IsComplete max_rooms has_broker node_id b alive known = absurd (ground arith)

module _ (codec : Codec) (events : EventCodec) (publish : Str → Str → Node → Node × Bool)
    (auth : Authorizer)
    (relays : (subject bytes : Str) (n : Node) → Moves n (publish subject bytes n).0) where
  run-IsComplete :
      (n : Node) (ss : List (Step codec events publish auth))
      → IsSound n
      → IsComplete n
      → IsComplete (run codec events publish auth n ss)
  unfolding run
  run-IsComplete n [] sound v = v
  run-IsComplete n (s ∷ ss) sound v =
      run-IsComplete (step codec events publish auth n s) ss
        (step-IsSound codec events publish auth relays n s sound)
        (Moves-IsComplete
          (Moves-step codec events publish auth relays n s sound.readers sound.callbacks) sound v)

  -- In a process that starts empty, after any schedule of steps, every open session that Handle has
  -- registered is the one that the registry holds for its user, if the broker's Publish touches the
  -- process only through operations of this package.
  pub run-new_node-IsComplete :
      (max_rooms : ℕ) (has_broker : Bool) (node_id : Str)
      (ss : List (Step codec events publish auth))
      → IsComplete (run codec events publish auth (new_node max_rooms has_broker node_id) ss)
  unfolding new_node
  run-new_node-IsComplete max_rooms has_broker node_id ss =
      run-IsComplete (new_node max_rooms has_broker node_id) ss
        (new_node-IsSound max_rooms has_broker node_id)
        (new_node-IsComplete max_rooms has_broker node_id)

  -- In a process that starts empty, after any schedule of steps, CloseAll closes every session that
  -- Handle has registered, whether it is still in the registry or was replaced there, if the broker's
  -- Publish touches the process only through operations of this package.
  pub run-close_all :
      (max_rooms : ℕ) (has_broker : Bool) (node_id reason : Str)
      (ss : List (Step codec events publish auth)) (b : ℕ)
      → let n = run codec events publish auth (new_node max_rooms has_broker node_id) ss in
        (n.client b).registered ≡ true → ((close_all reason n).client b).closed ≡ true
  run-close_all max_rooms has_broker node_id reason ss b known =
      close_all-registered reason _ b
        (run-new_node-IsSound codec events publish auth relays max_rooms has_broker node_id ss)
        (run-new_node-IsComplete max_rooms has_broker node_id ss) known
