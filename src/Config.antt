-- ===== src/Config.antt =====
-- go-server/internal/config/config.go: the settings of a process, read from its environment. The
-- environment is a function from names to values. time.ParseDuration, url.Parse, net.SplitHostPort
-- and the random source are parameters, gathered in `Outside`. Durations are nanoseconds.
pub mod Validate
pub mod Valid
pub mod Load
pub mod Csv
pub mod Session
pub mod Tests
use websocket.Common.{
  Bool, false, List, [], ◌∷◌, Option, none, some, if◌then◌else◌, is_empty, nat_eq, map, ℕ,
}
use websocket.Text.{Str, text, trim_space}
use websocket.Integer.{ℤ, pos}
use websocket.Http.{ParsedUrl}

pub record Config : Type 0 where
  pub environment : Str
  pub http_address : Str
  pub read_header : ℤ
  pub read_timeout : ℤ
  pub write_timeout : ℤ
  pub idle_timeout : ℤ
  pub shutdown_timeout : ℤ
  pub allowed_origins : List Str
  pub max_connections : ℤ
  pub outbound_queue_capacity : ℤ
  pub websocket_read_timeout : ℤ
  pub websocket_write_timeout : ℤ
  pub websocket_max_message_size : ℤ
  pub rate_limit_messages : ℤ
  pub rate_limit_interval : ℤ
  pub max_rooms_per_client : ℤ
  pub broker_url : Str
  pub node_id : Str

-- What the package takes from the standard library; `none` is an error.
pub record Outside : Type 0 where
  pub parse_duration : Str → Option ℤ
  pub parse_url : Str → Option ParsedUrl
  pub split_host_port : Str → Option (Str × Str)
  -- rand.Read of 16 bytes
  pub random : Option (List ℕ)

abbrev pub Environment : Type 0
Environment = Str → Option Str

-- A value that is set and not blank, as it was set.
unfoldable pub setting : Environment → Str → Option Str
setting env key = elim (env key) [
  | none ↦ none
  | some value ↦ if is_empty (trim_space value) then none else some value
]

unfoldable pub value_or_default : Environment → Str → Str → Str
value_or_default env key fallback = elim (env key) [
  | none ↦ fallback
  | some value ↦ if is_empty (trim_space value) then fallback else trim_space value
]

-- strings.Split at a comma: the part in front of the first comma, and the parts behind it.
unfoldable pub split_comma : Str → Str × List Str
split_comma [] = ([], [])
split_comma (c ∷ s) =
    let (first, rest) = split_comma s in
    if nat_eq c b',' then ([], first ∷ rest) else (c ∷ first, rest)

-- The loop of splitCSV over the parts.
unfoldable pub keep_values : List Str → List Str
keep_values [] = []
keep_values (part ∷ parts) =
    let values = keep_values parts in
    if is_empty (trim_space part) then values else trim_space part ∷ values

unfoldable pub split_csv : Str → List Str
unfolding split_comma
split_csv value = let (first, rest) = split_comma value in keep_values (first ∷ rest)
