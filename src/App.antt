-- ===== src/App.antt =====
-- go-server/internal/app/server.go: the server, made of the boundary, the process and its broker, from
-- NewServer to the end of Serve. The steps of the sessions, the requests, the answers of the broker's
-- Ready and the passing of the drain period come in any order in between. The HTTP server, the timers
-- and the log lines are left out. Of the process's counters, those of the upgrades are in the boundary
-- and the others in the node.
pub mod Invariant
pub mod Shutdown
pub mod Start
mod Tests
use websocket.Common.{
  ℕ, Bool, true, false, List, [], ◌∷◌, Option, none, some, if◌then◌else◌, is_empty,
}
use websocket.Text.{Str, ◌==◌, text}
use websocket.Integer.{magnitude}
use websocket.Observability.{new_metrics}
use websocket.Broker.Event.{EventCodec}
use websocket.Http.{
  set_ready, set_checker, authenticate_rejecting, Health, new_health, Request, ParsedUrl, Boundary,
  Outcome, rejected, dropped, accepted, authenticate_development, allowed_set, serve_http,
  end_session,
}
use websocket.Config.{Config}
use websocket.Config.Session.{session_config}
use websocket.Realtime.Message.{Codec}
use websocket.Realtime.Rooms.{Authorizer}
use websocket.Realtime.Node.{set_client, Node}
use websocket.Realtime.Client.{new_client}
use websocket.Realtime.Hub.{close_all, broadcast_draining}
use websocket.Realtime.Loop.{Step, step, session_options, SessionConfig}
use websocket.Realtime.Moves.Start.{new_node}

-- How far Serve is: not called, accepting work, in its drain period, past CloseAll, returned.
pub data Stage : Type 0 where
  prepared serving draining closing stopped : Stage

pub record Server : Type 0 where
  pub boundary : Boundary
  pub node : Node
  -- from the query parameter user_id to the principal
  pub authenticator : Str → Option Str
  pub sessions : SessionConfig
  pub stage : Stage

-- The authenticator of NewServer.
unfoldable pub default_authenticator : Str → Str → Option Str
default_authenticator environment =
    if environment == text "production" then authenticate_rejecting else authenticate_development

-- `none` is a failure of NewNATSBroker, which is tried where there is an address for it: `connected`
-- is whether it succeeds, and whether its connection is up. An in-memory bus is ready.
unfoldable pub new_server_with_authenticator :
    Config → (Str → Option Str) → (connected : Option Bool) → Option Server
new_server_with_authenticator c authenticator connected =
    let server : Bool → Server = λ broker_ready. record {
      boundary = record {
        health = record new_health { checker = some broker_ready };
        allowed_origins = allowed_set c.allowed_origins;
        max_connections = magnitude c.max_connections;
        admitted = 0;
        metrics = new_metrics;
      };
      node = new_node (magnitude c.max_rooms_per_client) true c.node_id;
      authenticator = authenticator;
      sessions = session_config c;
      stage = prepared;
    } in
    if is_empty c.broker_url
    then some (server true)
    else elim connected [ none ↦ none | some up ↦ some (server up) ]

unfoldable pub new_server : Config → Option Bool → Option Server
new_server c connected =
    new_server_with_authenticator c (default_authenticator c.environment) connected

-- Subscribe to the broker, and SetReady: a failure ends Serve.
unfoldable pub begin_serving : Bool → Server → Server
begin_serving subscribed s =
    if subscribed
    then record s {
      boundary = record s.boundary { health = set_ready true s.boundary.health };
      stage = serving;
    }
    else record s {
      boundary = record s.boundary { health = set_checker false s.boundary.health };
      stage = stopped;
    }

module _ (codec : Codec) where
  -- The goroutine of Serve, when its context is done, up to the drain period.
  unfoldable pub begin_shutdown : Server → Server
  begin_shutdown s = record s {
    boundary = record s.boundary { health = set_ready false s.boundary.health };
    node = broadcast_draining codec s.node;
    stage = draining;
  }

-- The goroutine after the drain period.
unfoldable pub end_drain : Server → Server
end_drain s = record s { node = close_all (text "server_shutdown") s.node; stage = closing }

-- The listener has failed; cancelRun then ends the context, so the goroutine goes on to its shutdown.
unfoldable pub listener_failed : Server → Server
listener_failed s = record s {
  boundary = record s.boundary { health = set_ready false s.boundary.health };
  node = close_all (text "server_failure") s.node;
}

-- Serve returns, and closes the broker.
unfoldable pub finish : Server → Server
finish s = record s {
  boundary = record s.boundary { health = set_checker false s.boundary.health };
  stage = stopped;
}

-- The session that Handle makes for an accepted request; its Register and Run are steps of their own.
unfoldable pub hand_over : Outcome → (now : ℕ) → Server → Server
hand_over (rejected status reason) now s = s
hand_over dropped now s = s
hand_over (accepted connection_id user_id) now s = record s {
  node = new_client (session_options s.sessions connection_id user_id now) s.node;
}

-- What the boundary is asked, with the principal from the server's own authenticator.
abbrev pub authenticated : Server → Str → Request → Request
authenticated s user_id r = record r { principal = s.authenticator user_id }

module _ (parse : Str → Option ParsedUrl) where
  unfoldable pub handle_request : (user_id : Str) → Request → (now : ℕ) → Server → Server
  handle_request user_id r now s =
      let (boundary', outcome) = serve_http parse (authenticated s user_id r) s.boundary in
      hand_over outcome now (record s { boundary = boundary' })

module _ (codec : Codec) (events : EventCodec) (publish : Str → Str → Node → Node × Bool)
    (auth : Authorizer) (parse : Str → Option ParsedUrl) where
  pub data ServerStep : Type 0 where
    serves : (subscribed : Bool) → ServerStep
    requests : (user_id : Str) → Request → (now : ℕ) → ServerStep
    returns : ServerStep
    works : Step codec events publish auth → ServerStep
    broker_reports : Bool → ServerStep
    cancelled listener_fails drain_passes finishes : ServerStep

  unfoldable pub server_step : Server → ServerStep → Server
  server_step s (serves subscribed) = elim s.stage [ prepared ↦ begin_serving subscribed s | _ ↦ s ]
  server_step s (requests user_id r now) = handle_request parse user_id r now s
  server_step s returns = record s { boundary = end_session s.boundary }
  server_step s (works x) = record s { node = step codec events publish auth s.node x }
  server_step s (broker_reports answer) = record s {
    boundary = record s.boundary { health = set_checker answer s.boundary.health };
  }
  server_step s cancelled = elim s.stage [ serving ↦ begin_shutdown codec s | _ ↦ s ]
  server_step s listener_fails = elim s.stage [ prepared ↦ s | stopped ↦ s | _ ↦ listener_failed s ]
  server_step s drain_passes = elim s.stage [ draining ↦ end_drain s | _ ↦ s ]
  server_step s finishes = elim s.stage [ closing ↦ finish s | _ ↦ s ]

  unfoldable pub server_run : Server → List ServerStep → Server
  server_run s [] = s
  server_run s (x ∷ xs) = server_run (server_step s x) xs
