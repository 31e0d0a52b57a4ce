-- ===== src/App/Invariant.antt =====
-- go-server/internal/app/server.go: what holds of a server in every stage of Serve.
use websocket.Common.{
  subst, sym, Option-cases, inr, inl, Bool-cases, ◌≡◌, ◌≢◌, refl, ap, ◌∙◌, Bool, true, false, some,
  Option, List, [], ◌∷◌, ℕ, arith,
}
use websocket.Text.{Str, text}
use websocket.Broker.Event.{EventCodec}
use websocket.Http.{
  Request, ParsedUrl, Boundary, Outcome, rejected, dropped, accepted, serve_http, reject, establish,
  is_ready, end_session,
}
use websocket.Http.Admission.{accepted_iff}
use websocket.Realtime.Message.{Codec}
use websocket.Realtime.Rooms.{Authorizer}
use websocket.Realtime.Node.{Node}
use websocket.Realtime.Loop.{Step, step}
use websocket.Realtime.Moves.Sound.{IsSound}
use websocket.Realtime.Moves.Start.{new_node, new_node-IsSound}
use websocket.Realtime.Moves
use websocket.Realtime.Moves.{Moves, done, one}
use websocket.Realtime.Moves.Hub.{Moves-broadcast_draining, Moves-close_all}
use websocket.Realtime.Moves.Loop.{Moves-step}
use websocket.Realtime.Moves.Preserve.{Moves-IsSound}
use websocket.Realtime.Moves.Complete.{IsComplete, Moves-IsComplete}
use websocket.Realtime.Moves.Reached.{new_node-IsComplete}
use websocket.Realtime.Loop.{session_options}
use websocket.Config.{Config}
use websocket.Integer.{magnitude}
use websocket.App.{
  is_empty, Server, Stage, prepared, serving, draining, closing, stopped, ServerStep, serves,
  requests, returns, works, broker_reports, cancelled, listener_fails, drain_passes, finishes,
  server_step, server_run, begin_serving, begin_shutdown, end_drain, listener_failed, finish,
  hand_over, handle_request, authenticated, new_server_with_authenticator,
}

-- Whether the shutdown has begun.
abbrev pub is_over : Stage → Bool
is_over prepared = false
is_over serving = false
is_over draining = true
is_over closing = true
is_over stopped = true

abbrev pub is_serving : Stage → Bool
is_serving serving = true
is_serving prepared = false
is_serving draining = false
is_serving closing = false
is_serving stopped = false

-- Only while it serves is the process ready.
abbrev pub IsGuarded : Server → Type 0
IsGuarded s = is_serving s.stage ≡ false → s.boundary.health.ready_flag ≡ false

-- Once the shutdown has begun, the process is not ready.
abbrev pub IsRefusing : Server → Type 0
IsRefusing s = (is_over s.stage ≡ true) × (s.boundary.health.ready_flag ≡ false)

serve_http-health :
    (parse : Str → Option ParsedUrl) (r : Request) (b : Boundary)
    → (serve_http parse r b).0.health ≡ b.health
unfolding serve_http reject establish
serve_http-health parse r b = ground arith

hand_over_lem :
    (outcome : Outcome) (now : ℕ) (s : Server)
    → ((hand_over outcome now s).boundary ≡ s.boundary)
      × ((hand_over outcome now s).stage ≡ s.stage)
unfolding hand_over
hand_over_lem (rejected status reason) now s = (refl, refl)
hand_over_lem dropped now s = (refl, refl)
hand_over_lem (accepted conn user) now s = (refl, refl)

handle_request_lem :
    (parse : Str → Option ParsedUrl) (user_id : Str) (r : Request) (now : ℕ) (s : Server)
    → ((handle_request parse user_id r now s).boundary.health ≡ s.boundary.health)
      × ((handle_request parse user_id r now s).stage ≡ s.stage)
unfolding handle_request
handle_request_lem parse user_id r now s =
    let (same_boundary, same_stage) =
      hand_over_lem (serve_http parse (authenticated s user_id r) s.boundary).1 now _ in
    (
      ap (λ (b : Boundary). b.health) same_boundary
          ∙ serve_http-health parse (authenticated s user_id r) s.boundary,
      same_stage,
    )

pub refusing_rejects :
    (parse : Str → Option ParsedUrl) (r : Request) (b : Boundary) (conn user : Str)
    → b.health.ready_flag ≡ false
    → (serve_http parse r b).1 ≢ accepted conn user
unfolding is_ready
refusing_rejects parse r b conn user down taken =
    let up = ((accepted_iff parse r b conn user).0 taken).0 in ground arith

module _ (codec : Codec) (events : EventCodec) (publish : Str → Str → Node → Node × Bool)
    (auth : Authorizer) (parse : Str → Option ParsedUrl) where
  server_step-IsRefusing :
      (s : Server) (x : ServerStep codec events publish auth parse)
      → IsRefusing s
      → IsRefusing (server_step codec events publish auth parse s x)
  unfolding server_step begin_serving begin_shutdown end_drain listener_failed finish end_session
  server_step-IsRefusing s (serves subscribed) v = ground arith
  server_step-IsRefusing s (requests user_id r now) v =
      let (same_health, same_stage) = handle_request_lem parse user_id r now s in ground arith
  server_step-IsRefusing s returns v = v
  server_step-IsRefusing s (works x) v = v
  server_step-IsRefusing s (broker_reports answer) v = v
  server_step-IsRefusing s cancelled v = ground arith
  server_step-IsRefusing s listener_fails v = ground arith
  server_step-IsRefusing s drain_passes v = ground arith
  server_step-IsRefusing s finishes v = ground arith

  pub server_run-IsRefusing :
      (s : Server) (xs : List (ServerStep codec events publish auth parse))
      → IsRefusing s
      → IsRefusing (server_run codec events publish auth parse s xs)
  unfolding server_run
  server_run-IsRefusing s [] v = v
  server_run-IsRefusing s (x ∷ xs) v =
      server_run-IsRefusing (server_step codec events publish auth parse s x) xs
        (server_step-IsRefusing s x v)

  server_step-IsGuarded :
      (s : Server) (x : ServerStep codec events publish auth parse)
      → IsGuarded s
      → IsGuarded (server_step codec events publish auth parse s x)
  unfolding server_step begin_serving begin_shutdown end_drain listener_failed finish end_session
  server_step-IsGuarded s (serves subscribed) v = ground arith
  server_step-IsGuarded s (requests user_id r now) v =
      let (same_health, same_stage) = handle_request_lem parse user_id r now s in ground arith
  server_step-IsGuarded s returns v = v
  server_step-IsGuarded s (works x) v = v
  server_step-IsGuarded s (broker_reports answer) v = v
  server_step-IsGuarded s cancelled v = ground arith
  server_step-IsGuarded s listener_fails v = ground arith
  server_step-IsGuarded s drain_passes v = ground arith
  server_step-IsGuarded s finishes v = ground arith

  pub server_run-IsGuarded :
      (s : Server) (xs : List (ServerStep codec events publish auth parse))
      → IsGuarded s
      → IsGuarded (server_run codec events publish auth parse s xs)
  unfolding server_run
  server_run-IsGuarded s [] v = v
  server_run-IsGuarded s (x ∷ xs) v =
      server_run-IsGuarded (server_step codec events publish auth parse s x) xs
        (server_step-IsGuarded s x v)

  module _ (relays : (subject bytes : Str) (n : Node) → Moves n (publish subject bytes n).0) where
    node_step :
        (n : Node) (x : Step codec events publish auth)
        → IsSound n
        → Moves n (step codec events publish auth n x)
    node_step n x v = Moves-step codec events publish auth relays n x v.readers v.callbacks

    hand_over-Moves :
        (outcome : Outcome) (now : ℕ) (s : Server) → Moves s.node (hand_over outcome now s).node
    unfolding hand_over session_options
    hand_over-Moves (rejected status reason) now s = done
    hand_over-Moves dropped now s = done
    hand_over-Moves (accepted conn user) now s = one (Moves.creates s.node _ refl)

    -- A step of the server is a sequence of moves of its node.
    server_step-Moves :
        (s : Server) (x : ServerStep codec events publish auth parse)
        → IsSound s.node
        → Moves s.node (server_step codec events publish auth parse s x).node
    unfolding server_step begin_serving begin_shutdown end_drain listener_failed finish
        handle_request
    server_step-Moves s (serves subscribed) v =
        let stays : Moves s.node s.node = done in ground arith
    server_step-Moves s (requests user_id r now) v = hand_over-Moves _ now _
    server_step-Moves s returns v = done
    server_step-Moves s (works x) v = node_step s.node x v
    server_step-Moves s (broker_reports answer) v = done
    server_step-Moves s cancelled v =
        let stays : Moves s.node s.node = done in
        let drained = Moves-broadcast_draining codec s.node in ground arith
    server_step-Moves s listener_fails v =
        let stays : Moves s.node s.node = done in
        let shut = Moves-close_all (text "server_failure") s.node in ground arith
    server_step-Moves s drain_passes v =
        let stays : Moves s.node s.node = done in
        let shut = Moves-close_all (text "server_shutdown") s.node in ground arith
    server_step-Moves s finishes v = let stays : Moves s.node s.node = done in ground arith

    pub server_run_keeps :
        (s : Server) (xs : List (ServerStep codec events publish auth parse))
        → IsSound s.node
        → IsComplete s.node
        → IsSound (server_run codec events publish auth parse s xs).node
          × IsComplete (server_run codec events publish auth parse s xs).node
    unfolding server_run
    server_run_keeps s [] v w = (v, w)
    server_run_keeps s (x ∷ xs) v w =
        let moves = server_step-Moves s x v in
        server_run_keeps (server_step codec events publish auth parse s x) xs
          (Moves-IsSound moves v) (Moves-IsComplete moves v w)

new_server_parts :
    (c : Config) (authenticator : Str → Option Str) (connected : Option Bool) (s : Server)
    → new_server_with_authenticator c authenticator connected ≡ some s
    → IsGuarded s × (s.node ≡ new_node (magnitude c.max_rooms_per_client) true c.node_id)
unfolding new_server_with_authenticator
new_server_parts c authenticator connected s made = elim (Bool-cases (is_empty c.broker_url)) [
  | inl alone ↦ ground arith
  | inr joined ↦ elim (Option-cases connected) [
    | inl unreachable ↦ absurd (ground arith)
    | inr (up, reached) ↦ ground arith
  ]
]

-- A new server refuses requests, and its process keeps the invariants.
pub new_server_with_authenticator_lem :
    (c : Config) (authenticator : Str → Option Str) (connected : Option Bool) (s : Server)
    → new_server_with_authenticator c authenticator connected ≡ some s
    → IsGuarded s × IsSound s.node × IsComplete s.node
new_server_with_authenticator_lem c authenticator connected s made =
    let (guarded, same) = new_server_parts c authenticator connected s made in
    let rooms = magnitude c.max_rooms_per_client in
    (
      guarded,
      subst IsSound (sym same) (new_node-IsSound rooms true c.node_id),
      subst IsComplete (sym same) (new_node-IsComplete rooms true c.node_id),
    )
