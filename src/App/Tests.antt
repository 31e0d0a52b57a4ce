-- ===== src/App/Tests.antt =====
-- The theorems about a server, with the default settings and one request.
use websocket.Common.{◌≡◌, ◌≢◌, refl, true, false, none, some, Option, List, [], ◌∷◌}
use websocket.Realtime.Message.{hex_encode}
use websocket.Text.{Str, text, ◌==◌, trim_space}
use websocket.Dict.{insert, lookup}
use websocket.Http.{
  new_connection_id, Request, ParsedUrl, serve_http, establish, check_origin, origin_shape,
  is_ready, allowed_set, authenticate_development,
}
use websocket.Config.{Config, setting, value_or_default}
use websocket.Config.Load.{base_config}
use websocket.Realtime.Rooms.{allow_all, find_client}
use websocket.Realtime.Tests.{test_codec, test_events, log_publish, log_publish-Moves}
use websocket.App.{
  session_config, new_node, new_metrics, Server, serving, prepared, ServerStep, serves, requests,
  cancelled, server_run, server_step, begin_serving, begin_shutdown, end_drain, handle_request,
  hand_over, new_server_with_authenticator,
}
use websocket.Config.Tests.{test_outside, test_environment, production, loads}
use websocket.Config.Load.{with_origins}
use websocket.Http.{accepted}
use websocket.Integer.{magnitude}
use websocket.App.{new_server, default_authenticator, authenticated}
use websocket.App.Start.{start_process, start_process-made, runs}
use websocket.App.Start.Configured.{production-rejects}
use websocket.App.Shutdown.{accepted-serving, end_drain_lem}

abbrev parse_known : Str → Option ParsedUrl
parse_known s = some (record {
  scheme = text "https";
  host = text "chat.example";
  path = [];
  raw_query = [];
  fragment = [];
})

-- The settings of an empty environment, with one origin.
abbrev defaults : Config
defaults = record (base_config (λ key. none) (text "n1")) {
  allowed_origins = text "https://chat.example" ∷ [];
}

abbrev ann_asks : Request
ann_asks = record {
  is_upgrade = true;
  origin = text "https://chat.example";
  principal = some (text "ann");
  upgrades = true;
  random = some (1 ∷ 171 ∷ []);
}

abbrev test_server : Server
test_server = record {
  boundary = record {
    health = record { ready_flag = false; checker = some true };
    allowed_origins = allowed_set (text "https://chat.example" ∷ []);
    max_connections = 1000;
    admitted = 0;
    metrics = new_metrics;
  };
  node = new_node 10 true (text "n1");
  authenticator = authenticate_development;
  sessions = session_config defaults;
  stage = prepared;
}

made : new_server_with_authenticator defaults authenticate_development none ≡ some test_server
unfolding new_server_with_authenticator base_config value_or_default setting
made = refl

abbrev one_session : List (ServerStep test_codec test_events log_publish allow_all parse_known)
one_session = serves true ∷ requests (text "ann") ann_asks 0 ∷ []

accepted-serving_example :
    (server_run test_codec test_events log_publish allow_all parse_known test_server
      one_session).stage
    ≡ serving
unfolding new_connection_id hex_encode server_run server_step begin_serving handle_request hand_over
    serve_http establish check_origin origin_shape is_ready allowed_set authenticate_development
    trim_space ◌==◌ insert lookup
accepted-serving_example =
    accepted-serving test_codec test_events log_publish allow_all parse_known defaults
      authenticate_development none test_server one_session ann_asks (text "conn_01ab") (text "ann")
      made refl

abbrev then_cancelled : List (ServerStep test_codec test_events log_publish allow_all parse_known)
then_cancelled = serves true ∷ requests (text "ann") ann_asks 0 ∷ cancelled ∷ []

end_drain_lem_example :
    find_client
      (end_drain (
        server_run test_codec test_events log_publish allow_all parse_known test_server
          then_cancelled)).node.hub
      (text "ann")
    ≡ none
unfolding new_connection_id hex_encode server_run server_step begin_serving begin_shutdown
    handle_request hand_over serve_http establish check_origin origin_shape is_ready allowed_set
    authenticate_development trim_space ◌==◌ insert lookup
end_drain_lem_example =
    (end_drain_lem test_codec test_events log_publish allow_all parse_known log_publish-Moves
        defaults authenticate_development none test_server then_cancelled made refl).2
      (text "ann")

-- What cmd/server starts in production.
abbrev production_server : Server
production_server = record {
  boundary = record {
    health = record { ready_flag = false; checker = some true };
    allowed_origins = allowed_set production.allowed_origins;
    max_connections = magnitude production.max_connections;
    admitted = 0;
    metrics = new_metrics;
  };
  node = new_node (magnitude production.max_rooms_per_client) true production.node_id;
  authenticator = default_authenticator production.environment;
  sessions = session_config production;
  stage = prepared;
}

production_made : new_server production none ≡ some production_server
unfolding new_server new_server_with_authenticator base_config with_origins value_or_default setting
    trim_space ◌==◌
production_made = refl

started :
    start_process test_outside test_environment (λ address. true) none ≡ runs production_server
started =
    start_process-made test_outside test_environment (λ address. true) none production
      production_server loads refl production_made

production-rejects_example :
    let s =
      server_run test_codec test_events log_publish allow_all parse_known production_server
        one_session in
    (serve_http parse_known (authenticated s (text "ann") ann_asks) s.boundary).1
    ≢ accepted (text "conn_01ab") (text "ann")
unfolding value_or_default setting ◌==◌ trim_space
production-rejects_example =
    production-rejects test_codec test_events log_publish allow_all parse_known test_outside
      test_environment (λ address. true) none production_server one_session (text "ann") ann_asks
      (text "conn_01ab") (text "ann") refl started
