-- ===== src/Config/Load.antt =====
-- go-server/internal/config/config.go: LoadFrom. A pointer to a field is a function that writes it.
pub mod Laws
use websocket.Common.{
  ℕ, ◌*◌, Bool, false, List, [], ◌∷◌, ◌++◌, Option, none, some, if◌then◌else◌, is_empty, not,
  is_some,
}
use websocket.Text.{Str, ◌==◌, text, trim_space}
use websocket.Integer.{ℤ, pos, parse_int}
use websocket.Realtime.Message.{hex_encode}
use websocket.Config.{Config, Outside, Environment, setting, value_or_default, split_csv}
use websocket.Config.Validate.{Problem, validate_config}

-- Why LoadFrom fails; a key names the variable.
pub data LoadError : Type 0 where
  no_node_id : LoadError
  not_integer not_duration : (key : Str) → LoadError
  invalid : List Problem → LoadError

pub data Loaded {ℓ} (A : Type ℓ) : Type ℓ where
  ok : A → Loaded A
  failed : LoadError → Loaded A

infixl 5 ◌>>=◌
abbrev pub ◌>>=◌ {ℓ κ} : {A : Type ℓ} {B : Type κ} → Loaded A → (A → Loaded B) → Loaded B
loaded >>= next = elim loaded [ failed problem ↦ failed problem | ok result ↦ next result ]

abbrev pub seconds : ℕ → ℤ
seconds n = pos (n * 1_000_000_000)

abbrev pub default_origins : List Str
default_origins = text "http://localhost:3000" ∷ text "http://127.0.0.1:3000" ∷ []

-- The configuration before the overrides.
unfoldable pub base_config : Environment → Str → Config
base_config env node_id =
    let environment = value_or_default env (text "BLOCKFORGE_ENV") (text "development") in
    record {
      environment = environment;
      http_address = value_or_default env (text "BLOCKFORGE_HTTP_ADDRESS") (text ":8080");
      read_header = seconds 5;
      read_timeout = seconds 15;
      write_timeout = seconds 15;
      idle_timeout = seconds 60;
      shutdown_timeout = seconds 10;
      allowed_origins = if environment == text "production" then [] else default_origins;
      max_connections = pos 1000;
      outbound_queue_capacity = pos 64;
      websocket_read_timeout = seconds 60;
      websocket_write_timeout = seconds 10;
      websocket_max_message_size = pos 4096;
      rate_limit_messages = pos 100;
      rate_limit_interval = seconds 60;
      max_rooms_per_client = pos 10;
      broker_url = value_or_default env (text "BLOCKFORGE_BROKER_URL") [];
      node_id = node_id;
    }

unfoldable pub with_origins : Environment → Config → Config
with_origins env c = record c {
  allowed_origins = elim (setting env (text "BLOCKFORGE_ALLOWED_ORIGINS")) [
    | none ↦ c.allowed_origins
    | some value ↦ split_csv value
  ];
}

-- A row of the tables of LoadFrom: the variable, and the pointer to the field, as a read and a write.
pub record Target : Type 0 where
  pub key : Str
  pub get : Config → ℤ
  pub set : ℤ → Config → Config

abbrev pub integers : List Target
integers =
    record {
      key = text "BLOCKFORGE_MAX_CONNECTIONS";
      get = λ c. c.max_connections;
      set = λ z c. record c { max_connections = z };
    }
    ∷ record {
      key = text "BLOCKFORGE_OUTBOUND_QUEUE_CAPACITY";
      get = λ c. c.outbound_queue_capacity;
      set = λ z c. record c { outbound_queue_capacity = z };
    }
    ∷ record {
      key = text "BLOCKFORGE_WS_RATE_LIMIT_MESSAGES";
      get = λ c. c.rate_limit_messages;
      set = λ z c. record c { rate_limit_messages = z };
    }
    ∷ record {
      key = text "BLOCKFORGE_WS_MAX_ROOMS_PER_CLIENT";
      get = λ c. c.max_rooms_per_client;
      set = λ z c. record c { max_rooms_per_client = z };
    }
    ∷ []

abbrev pub message_size : List Target
message_size =
    record {
      key = text "BLOCKFORGE_WS_MAX_MESSAGE_SIZE";
      get = λ c. c.websocket_max_message_size;
      set = λ z c. record c { websocket_max_message_size = z };
    }
    ∷ []

abbrev pub timeouts : List Target
timeouts =
    record {
      key = text "BLOCKFORGE_HTTP_READ_HEADER_TIMEOUT";
      get = λ c. c.read_header;
      set = λ z c. record c { read_header = z };
    }
    ∷ record {
      key = text "BLOCKFORGE_HTTP_READ_TIMEOUT";
      get = λ c. c.read_timeout;
      set = λ z c. record c { read_timeout = z };
    }
    ∷ record {
      key = text "BLOCKFORGE_HTTP_WRITE_TIMEOUT";
      get = λ c. c.write_timeout;
      set = λ z c. record c { write_timeout = z };
    }
    ∷ record {
      key = text "BLOCKFORGE_HTTP_IDLE_TIMEOUT";
      get = λ c. c.idle_timeout;
      set = λ z c. record c { idle_timeout = z };
    }
    ∷ record {
      key = text "BLOCKFORGE_SHUTDOWN_TIMEOUT";
      get = λ c. c.shutdown_timeout;
      set = λ z c. record c { shutdown_timeout = z };
    }
    ∷ record {
      key = text "BLOCKFORGE_WS_READ_TIMEOUT";
      get = λ c. c.websocket_read_timeout;
      set = λ z c. record c { websocket_read_timeout = z };
    }
    ∷ record {
      key = text "BLOCKFORGE_WS_WRITE_TIMEOUT";
      get = λ c. c.websocket_write_timeout;
      set = λ z c. record c { websocket_write_timeout = z };
    }
    ∷ record {
      key = text "BLOCKFORGE_WS_RATE_LIMIT_INTERVAL";
      get = λ c. c.rate_limit_interval;
      set = λ z c. record c { rate_limit_interval = z };
    }
    ∷ []

abbrev pub or_else : Option ℤ → ℤ → ℤ
or_else none z = z
or_else (some value) z = value

module _ (parse : Str → Option ℤ) (error : Str → LoadError) (env : Environment) where
  -- The value that a variable gives, if it is set.
  unfoldable pub read_setting : Str → Loaded (Option ℤ)
  read_setting key = elim (setting env key) [
    | none ↦ ok none
    | some value ↦ elim (parse value) [ none ↦ failed (error key) | some z ↦ ok (some z) ]
  ]

  -- The loop over a table. A variable that is not set writes back what the field holds.
  unfoldable pub override : List Target → Config → Loaded Config
  override [] c = ok c
  override (t ∷ ts) c = do
    value ← read_setting t.key
    override ts (t.set (or_else value (t.get c)) c)

abbrev pub parse_trimmed : Str → Option ℤ
parse_trimmed value = parse_int (trim_space value)

module _ (outside : Outside) (env : Environment) where
  unfoldable pub load_node_id : Loaded Str
  load_node_id =
      let id = value_or_default env (text "BLOCKFORGE_NODE_ID") [] in
      if is_empty id
      then (elim outside.random [
        | none ↦ failed no_node_id
        | some value ↦ ok (text "node_" ++ hex_encode value)
      ])
      else ok id

  unfoldable pub checked : Config → Loaded Config
  checked c = elim (validate_config outside c) [ [] ↦ ok c | p ∷ ps ↦ failed (invalid (p ∷ ps)) ]

  unfoldable pub load_from : Loaded Config
  unfolding load_node_id checked
  load_from = do
    id ← load_node_id
    c ← override parse_trimmed not_integer env integers (with_origins env (base_config env id))
    c' ← override parse_trimmed not_integer env message_size c
    c'' ← override outside.parse_duration not_duration env timeouts c'
    checked c''
