-- ===== src/Http/Tests.antt =====
-- The theorems about admission, at a boundary for one session.
use websocket.Common.{◌≡◌, ◌↔◌, ◌<◌, refl, true, Option, none, some, [], ◌∷◌, arith}
use websocket.Realtime.Message.{hex_encode}
use websocket.Text.{Str, text, ◌==◌, trim_space}
use websocket.Dict.{insert, lookup}
use websocket.Observability.{new_metrics}
use websocket.Http.{
  new_connection_id, trim_space, ◌==◌, lookup, insert, Request, Boundary, ParsedUrl, accepted,
  serve_http, check_origin, is_ready, allowed_set,
}
use websocket.Http.Admission.{arrives, ends, happen, IsCounted, accepted_iff, happen-IsCounted}

-- A parser that knows one address.
abbrev test_parse : Str → Option ParsedUrl
test_parse s = some (record {
  scheme = text "https";
  host = text "chat.example";
  path = [];
  raw_query = [];
  fragment = [];
})

abbrev boundary : Boundary
boundary = record {
  health = record { ready_flag = true; checker = none };
  allowed_origins = allowed_set (text "https://chat.example" ∷ []);
  max_connections = 1;
  admitted = 0;
  metrics = new_metrics;
}

abbrev ann_arrives : Request
ann_arrives = record {
  is_upgrade = true;
  origin = text "https://chat.example";
  principal = some (text "ann");
  upgrades = true;
  random = some (1 ∷ 171 ∷ []);
}

accepted_iff_example :
    ((serve_http test_parse ann_arrives boundary).1 ≡ accepted (text "conn_01ab") (text "ann")) ↔ (
      (is_ready boundary.health ≡ true)
      × (true ≡ true)
      × (check_origin test_parse boundary.allowed_origins ann_arrives.origin ≡ true)
      × (ann_arrives.principal ≡ some (text "ann"))
      × (boundary.admitted < boundary.max_connections)
      × (ann_arrives.upgrades ≡ true)
      × (new_connection_id ann_arrives.random ≡ some (text "conn_01ab")))
accepted_iff_example = accepted_iff test_parse ann_arrives boundary (text "conn_01ab") (text "ann")

-- The second request finds no token, the third one does.
happen-IsCounted_example : IsCounted (
    happen test_parse
      (arrives ann_arrives ∷ arrives ann_arrives ∷ ends ∷ arrives ann_arrives ∷ [])
      boundary
      0
      0)
happen-IsCounted_example =
    happen-IsCounted test_parse
      (arrives ann_arrives ∷ arrives ann_arrives ∷ ends ∷ arrives ann_arrives ∷ []) boundary 0 0
      (record { running = refl; limited = omega arith; attempts = refl })

second_refused :
    (happen test_parse (arrives ann_arrives ∷ arrives ann_arrives ∷ []) boundary 0 0).1 ≡ 1
unfolding serve_http new_connection_id hex_encode check_origin allowed_set is_ready insert lookup
    ◌==◌ trim_space
second_refused = refl
