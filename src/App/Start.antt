-- ===== src/App/Start.antt =====
-- go-server/cmd/server/main.go: from the environment to a server that serves. The listener is outside:
-- whether the address can be listened on is an argument. The signals are the step `cancelled`.
pub mod Configured
use websocket.Common.{
  ℕ, ◌≡◌, ◌≢◌, ◌≤◌, ◌<◌, refl, ap, sym, ◌∙◌, subst, Bool, true, false, some, none, Option, ◌⊎◌,
  Option-cases, Bool-cases, inl, inr, List, [], ◌∷◌, arith, if◌then◌else◌, is_empty,
}
use websocket.Text.{Str, text, ◌==◌, ==_iff}
use websocket.Dict.{StrSet}
use websocket.Integer.{magnitude}
use websocket.Broker.Event.{EventCodec}
use websocket.Config.{value_or_default, Config, Outside, Environment}
use websocket.Config.Load.{ok, failed, load_from, Loaded, LoadError}
use websocket.Config.Load.Laws.{load_from-environment}
use websocket.Config.Session.{session_config, loaded_session}
use websocket.Http.{
  Outcome, rejected, dropped, Request, ParsedUrl, Boundary, accepted, serve_http,
  authenticate_rejecting, reject, establish, end_session, allowed_set,
}
use websocket.Http.Admission.{accepted_iff}
use websocket.Realtime.Message.{Codec}
use websocket.Realtime.Rooms.{Authorizer}
use websocket.Realtime.Node.{Node}
use websocket.Realtime.Loop.{SessionConfig, session_options}
use websocket.App.{
  Server, Stage, prepared, serving, draining, closing, stopped, ServerStep, serves, requests,
  returns, works, broker_reports, cancelled, listener_fails, drain_passes, finishes, server_step,
  server_run, new_server, new_server_with_authenticator, default_authenticator, begin_serving,
  begin_shutdown, end_drain, listener_failed, finish, hand_over, handle_request, authenticated,
}

-- How far `run` gets before Serve.
pub data Started : Type 0 where
  not_loaded : LoadError → Started
  not_listening no_server : Started
  runs : Server → Started

load_cases : (l : Loaded Config) → ((e : LoadError) × (l ≡ failed e)) ⊎ ((c : Config) × (l ≡ ok c))
load_cases (failed e) = inl (e, refl)
load_cases (ok c) = inr (c, refl)

module _ (outside : Outside) (env : Environment) (listens : Str → Bool)
    (connected : Option Bool) where
  unfoldable pub start_process : Started
  start_process = elim (load_from outside env) [
    | failed e ↦ not_loaded e
    | ok c ↦
        if listens c.http_address
        then (elim (new_server c connected) [ none ↦ no_server | some s ↦ runs s ])
        else not_listening
  ]

  -- A server that runs was made from a configuration that loads.
  pub start_process-runs :
      (s : Server)
      → start_process ≡ runs s
      → (c : Config) × (load_from outside env ≡ ok c) × (new_server c connected ≡ some s)
  unfolding start_process
  start_process-runs s started = elim (load_cases (load_from outside env)) [
    | inl (e, refused) ↦
        let ends : start_process ≡ not_loaded e = rw (refused, start_process) refl in absurd cc
    | inr (c, loaded) ↦ elim (Bool-cases (listens c.http_address)) [
      | inr deaf ↦
          let ends : start_process ≡ not_listening = rw (loaded, deaf, start_process) refl in
          absurd cc
      | inl hears ↦ elim (Option-cases (new_server c connected)) [
        | inl unmade ↦
            let ends : start_process ≡ no_server = rw (loaded, hears, unmade, start_process) refl in
            absurd cc
        | inr (s', made) ↦
            let goes : start_process ≡ runs s' = rw (loaded, hears, made, start_process) refl in
            (c, loaded, cc)
      ]
    ]
  ]

  -- With a configuration that loads, an address to listen on and a broker, the server runs.
  pub start_process-made :
      (c : Config) (s : Server)
      → load_from outside env ≡ ok c
      → listens c.http_address ≡ true
      → new_server c connected ≡ some s
      → start_process ≡ runs s
  unfolding start_process
  start_process-made c s loaded hears made = rw (loaded, hears, made, start_process) refl
