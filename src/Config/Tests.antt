-- ===== src/Config/Tests.antt =====
-- The theorems about the configuration, at an environment that sets three variables.
use websocket.Common.{◌≡◌, ◌<◌, refl, [], ◌∷◌, none, some, if◌then◌else◌}
use websocket.Text.{text, ◌==◌, trim_space}
use websocket.Integer.{pos, parse_int, read_natural, read_digits, signed, to_int64}
use websocket.Config.{
  Config, Outside, Environment, setting, value_or_default, split_csv, split_comma, keep_values,
}
use websocket.Config.Validate.{
  validate_config, known_environment, validate_address, validate_origin, check_origins,
  check_address, check_durations, durations, has_star,
}
use websocket.Config.Valid.{IsValidConfig}
use websocket.Config.Load.{
  ok, load_from, base_config, with_origins, read_setting, override, load_node_id, checked,
}
use websocket.Config.Load.Laws.{load_from-ok}
use websocket.Config.Csv.{join_csv, has_comma, split_csv-join_csv}
use websocket.Config.Session.{session_config, loaded_session}
use websocket.Realtime.Message.{hex_encode}
use websocket.Realtime.Loop.{session_options}

-- Every address is ":8080", every origin "https://chat.example" and every duration a nanosecond.
abbrev pub test_outside : Outside
test_outside = record {
  parse_duration = λ s. some (pos 1);
  parse_url = λ s. some (record {
    scheme = text "https";
    host = text "chat.example";
    path = [];
    raw_query = [];
    fragment = [];
  });
  split_host_port = λ s. some ([], text "8080");
  random = some (1 ∷ 2 ∷ []);
}

abbrev pub test_environment : Environment
test_environment key =
    if key == text "BLOCKFORGE_ENV"
    then some (text "production")
    else if key == text "BLOCKFORGE_ALLOWED_ORIGINS"
    then some (text "https://chat.example, ")
    else if key == text "BLOCKFORGE_MAX_CONNECTIONS"
    then some (text " 12 ")
    else none

abbrev pub production : Config
production =
    record (with_origins test_environment (base_config test_environment (text "node_0102"))) {
      max_connections = pos 12;
    }

pub loads : load_from test_outside test_environment ≡ ok production
unfolding load_from load_node_id override read_setting with_origins base_config checked
    validate_config known_environment validate_address validate_origin check_origins check_address
    check_durations durations has_star setting value_or_default split_csv split_comma keep_values
    trim_space ◌==◌ parse_int read_natural read_digits signed to_int64 hex_encode
loads = refl

load_from-ok_example : IsValidConfig test_outside production
load_from-ok_example = (load_from-ok test_outside test_environment production loads).0

loaded_session_example :
    0 < (session_options (session_config production) (text "conn_1") (text "ann") 5).queue_capacity
loaded_session_example =
    (loaded_session test_outside test_environment production (text "conn_1") (text "ann") 5 loads).0

split_csv-join_csv_example :
    split_csv (join_csv (text "a" ∷ text "b c" ∷ [])) ≡ text "a" ∷ text "b c" ∷ []
unfolding trim_space has_comma
split_csv-join_csv_example =
    split_csv-join_csv (text "a" ∷ text "b c" ∷ [])
      ((λ h. cc, refl, refl), ((λ h. cc, refl, refl), tt))
