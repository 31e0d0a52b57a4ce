-- ===== src/Config/Load/Laws.antt =====
-- go-server/internal/config/config.go: what a configuration that LoadFrom returns is.
use websocket.Common.{
  ℕ, ◌≡◌, ◌≢◌, refl, sym, ap, ◌∙◌, false, List, [], ◌∷◌, ◌++◌, Option, Option-cases, none, some,
  Bool-cases, inl, inr, arith, if◌then◌else◌, is_empty, is_empty_iff,
}
use websocket.Text.{Str, ◌==◌, text}
use websocket.Integer.{ℤ, pos}
use websocket.Realtime.Message.{hex_encode}
use websocket.Config.{Config, Outside, Environment, value_or_default, setting, split_csv}
use websocket.Config.Validate.{validate_config}
use websocket.Config.Valid.{IsValidConfig, validate_config_iff}
use websocket.Config.Load.{
  Loaded, ok, failed, LoadError, not_integer, not_duration, ◌>>=◌, seconds, default_origins,
  base_config, with_origins, Target, integers, message_size, timeouts, or_else, read_setting,
  override, parse_trimmed, load_node_id, checked, load_from,
}

-- What a load that succeeds has got from its first step.
first_step {ℓ κ} :
    {A : Type ℓ} {B : Type κ} (loaded : Loaded A) (next : A → Loaded B) {end : B}
    → (loaded >>= next) ≡ ok end
    → (result : A) × (loaded ≡ ok result) × (next result ≡ ok end)
first_step (failed problem) next succeeded = cc
first_step (ok result) next succeeded = (result, refl, succeeded)

-- The number z is what the variable gives, and the default if it is not set.
abbrev pub Gives : (Str → Option ℤ) → (Str → LoadError) → Environment → Str → ℤ → ℤ → Type 0
Gives parse error env key default z =
    (value : Option ℤ) × (read_setting parse error env key ≡ ok value) × (z ≡ or_else value default)

module _ (parse : Str → Option ℤ) (error : Str → LoadError) (env : Environment) where
  override_step :
      (t : Target) (ts : List Target) (c : Config) {end : Config}
      → override parse error env (t ∷ ts) c ≡ ok end
      → (value : Option ℤ) × (read_setting parse error env t.key ≡ ok value)
        × (override parse error env ts (t.set (or_else value (t.get c)) c) ≡ ok end)
  unfolding override
  override_step t ts c h = first_step (read_setting parse error env t.key) _ h

  override_end : (c : Config) {end : Config} → override parse error env [] c ≡ ok end → c ≡ end
  unfolding override
  override_end c h = ground arith

-- The integers and durations of a configuration, each by its variable and its default.
pub record IsRead (outside : Outside) (env : Environment) (c : Config) : Type 0 where
  pub connections :
      Gives parse_trimmed not_integer env
        (text "BLOCKFORGE_MAX_CONNECTIONS")
        (pos 1000)
        c.max_connections
  pub queue :
      Gives parse_trimmed not_integer env
        (text "BLOCKFORGE_OUTBOUND_QUEUE_CAPACITY")
        (pos 64)
        c.outbound_queue_capacity
  pub messages :
      Gives parse_trimmed not_integer env
        (text "BLOCKFORGE_WS_RATE_LIMIT_MESSAGES")
        (pos 100)
        c.rate_limit_messages
  pub rooms :
      Gives parse_trimmed not_integer env
        (text "BLOCKFORGE_WS_MAX_ROOMS_PER_CLIENT")
        (pos 10)
        c.max_rooms_per_client
  pub size :
      Gives parse_trimmed not_integer env
        (text "BLOCKFORGE_WS_MAX_MESSAGE_SIZE")
        (pos 4096)
        c.websocket_max_message_size
  pub header :
      Gives outside.parse_duration not_duration env
        (text "BLOCKFORGE_HTTP_READ_HEADER_TIMEOUT")
        (seconds 5)
        c.read_header
  pub read :
      Gives outside.parse_duration not_duration env
        (text "BLOCKFORGE_HTTP_READ_TIMEOUT")
        (seconds 15)
        c.read_timeout
  pub write :
      Gives outside.parse_duration not_duration env
        (text "BLOCKFORGE_HTTP_WRITE_TIMEOUT")
        (seconds 15)
        c.write_timeout
  pub idle :
      Gives outside.parse_duration not_duration env
        (text "BLOCKFORGE_HTTP_IDLE_TIMEOUT")
        (seconds 60)
        c.idle_timeout
  pub shutdown :
      Gives outside.parse_duration not_duration env
        (text "BLOCKFORGE_SHUTDOWN_TIMEOUT")
        (seconds 10)
        c.shutdown_timeout
  pub session_read :
      Gives outside.parse_duration not_duration env
        (text "BLOCKFORGE_WS_READ_TIMEOUT")
        (seconds 60)
        c.websocket_read_timeout
  pub session_write :
      Gives outside.parse_duration not_duration env
        (text "BLOCKFORGE_WS_WRITE_TIMEOUT")
        (seconds 10)
        c.websocket_write_timeout
  pub interval :
      Gives outside.parse_duration not_duration env
        (text "BLOCKFORGE_WS_RATE_LIMIT_INTERVAL")
        (seconds 60)
        c.rate_limit_interval
  pub origins : c.allowed_origins ≡ elim (setting env (text "BLOCKFORGE_ALLOWED_ORIGINS")) [
    | some value ↦ split_csv value
    | none ↦ if c.environment == text "production" then [] else default_origins
  ]

abbrev counted : Option ℤ → Option ℤ → Option ℤ → Option ℤ → Config → Config
counted connections queue messages rooms c = record c {
  max_connections = or_else connections c.max_connections;
  outbound_queue_capacity = or_else queue c.outbound_queue_capacity;
  rate_limit_messages = or_else messages c.rate_limit_messages;
  max_rooms_per_client = or_else rooms c.max_rooms_per_client;
}

abbrev sized : Option ℤ → Config → Config
sized size c = record c { websocket_max_message_size = or_else size c.websocket_max_message_size }

abbrev timed :
    Option ℤ
    → Option ℤ
    → Option ℤ
    → Option ℤ
    → Option ℤ
    → Option ℤ
    → Option ℤ
    → Option ℤ
    → Config
    → Config
timed header read write idle shutdown session_read session_write interval c = record c {
  read_header = or_else header c.read_header;
  read_timeout = or_else read c.read_timeout;
  write_timeout = or_else write c.write_timeout;
  idle_timeout = or_else idle c.idle_timeout;
  shutdown_timeout = or_else shutdown c.shutdown_timeout;
  websocket_read_timeout = or_else session_read c.websocket_read_timeout;
  websocket_write_timeout = or_else session_write c.websocket_write_timeout;
  rate_limit_interval = or_else interval c.rate_limit_interval;
}

prefix_ne_nil : (bytes : List ℕ) → is_empty (text "node_" ++ hex_encode bytes) ≡ false
prefix_ne_nil bytes = refl

module _ (outside : Outside) (env : Environment) where
  checked-ok :
      (c : Config) {end : Config}
      → checked outside env c ≡ ok end
      → (validate_config outside c ≡ []) × (c ≡ end)
  unfolding checked
  checked-ok c h = ground arith

  load_node_id-ne-nil : (id : Str) → load_node_id outside env ≡ ok id → id ≢ []
  unfolding load_node_id
  load_node_id-ne-nil id h =
      let given = value_or_default env (text "BLOCKFORGE_NODE_ID") [] in
      elim (Bool-cases (is_empty given)) [
        | inr set ↦ λ blank. ground (arith, is_empty_iff given)
        | inl unset ↦ elim (Option-cases outside.random) [
          | inl dry ↦ absurd (ground arith)
          | inr (bytes, drawn) ↦ λ blank. ground (arith, prefix_ne_nil bytes)
        ]
      ]

  -- The configuration before the overrides, and the overrides of each table, in order.
  loaded_parts :
      (c : Config)
      → load_from outside env ≡ ok c
      → (id : Str) × (c1 c2 : Config) × (load_node_id outside env ≡ ok id)
        × (override parse_trimmed not_integer env integers (with_origins env (base_config env id))
            ≡ ok c1)
        × (override parse_trimmed not_integer env message_size c1 ≡ ok c2)
        × (override outside.parse_duration not_duration env timeouts c2 ≡ ok c)
        × (validate_config outside c ≡ [])
  unfolding load_from
  loaded_parts c h =
      let (id, found, h1) = first_step (load_node_id outside env) _ h in
      let (c1, numbers, h2) = first_step (override parse_trimmed not_integer env integers _) _ h1 in
      let (c2, size, h3) =
        first_step (override parse_trimmed not_integer env message_size c1) _ h2 in
      let (c3, times, h4) =
        first_step (override outside.parse_duration not_duration env timeouts c2) _ h3 in
      let (valid, same) = checked-ok c3 h4 in
      (id, c1, c2, found, numbers, size, times ∙ ap ok same, rw (← same) valid)

  origins_end :
      (id : Str) (c : Config)
      → c.environment ≡ (base_config env id).environment
      → (with_origins env (base_config env id)).allowed_origins
        ≡ elim (setting env (text "BLOCKFORGE_ALLOWED_ORIGINS")) [
          | some value ↦ split_csv value
          | none ↦ if c.environment == text "production" then [] else default_origins
        ]
  unfolding with_origins base_config
  origins_end id c same = ground (arith, ap (λ (t : Str). t == text "production") same)

  -- The configuration as a whole: what each variable gives, over the defaults.
  loaded_whole :
      (c : Config)
      → load_from outside env ≡ ok c
      → (id : Str) × (o1 o2 o3 o4 o5 d1 d2 d3 d4 d5 d6 d7 d8 : Option ℤ) × (load_node_id outside env
          ≡ ok id)
        × (read_setting parse_trimmed not_integer env (text "BLOCKFORGE_MAX_CONNECTIONS") ≡ ok o1)
        × (read_setting parse_trimmed not_integer env (text "BLOCKFORGE_OUTBOUND_QUEUE_CAPACITY")
            ≡ ok o2)
        × (read_setting parse_trimmed not_integer env (text "BLOCKFORGE_WS_RATE_LIMIT_MESSAGES")
            ≡ ok o3)
        × (read_setting parse_trimmed not_integer env (text "BLOCKFORGE_WS_MAX_ROOMS_PER_CLIENT")
            ≡ ok o4)
        × (read_setting parse_trimmed not_integer env (text "BLOCKFORGE_WS_MAX_MESSAGE_SIZE")
            ≡ ok o5)
        × (read_setting outside.parse_duration not_duration env
              (text "BLOCKFORGE_HTTP_READ_HEADER_TIMEOUT")
            ≡ ok d1)
        × (read_setting outside.parse_duration not_duration env
              (text "BLOCKFORGE_HTTP_READ_TIMEOUT")
            ≡ ok d2)
        × (read_setting outside.parse_duration not_duration env
              (text "BLOCKFORGE_HTTP_WRITE_TIMEOUT")
            ≡ ok d3)
        × (read_setting outside.parse_duration not_duration env
              (text "BLOCKFORGE_HTTP_IDLE_TIMEOUT")
            ≡ ok d4)
        × (read_setting outside.parse_duration not_duration env (text "BLOCKFORGE_SHUTDOWN_TIMEOUT")
            ≡ ok d5)
        × (read_setting outside.parse_duration not_duration env (text "BLOCKFORGE_WS_READ_TIMEOUT")
            ≡ ok d6)
        × (read_setting outside.parse_duration not_duration env (text "BLOCKFORGE_WS_WRITE_TIMEOUT")
            ≡ ok d7)
        × (read_setting outside.parse_duration not_duration env
              (text "BLOCKFORGE_WS_RATE_LIMIT_INTERVAL")
            ≡ ok d8)
        × (c
            ≡ timed d1 d2 d3 d4 d5 d6 d7 d8
                (sized o5 (counted o1 o2 o3 o4 (with_origins env (base_config env id)))))
        × (validate_config outside c ≡ [])
  loaded_whole c h =
      let (id, c1, c2, found, numbers, size, times, valid) = loaded_parts c h in
      let (o1, r1, s1) = override_step parse_trimmed not_integer env _ _ _ numbers in
      let (o2, r2, s2) = override_step parse_trimmed not_integer env _ _ _ s1 in
      let (o3, r3, s3) = override_step parse_trimmed not_integer env _ _ _ s2 in
      let (o4, r4, s4) = override_step parse_trimmed not_integer env _ _ _ s3 in
      let (o5, r5, s5) = override_step parse_trimmed not_integer env _ _ _ size in
      let (d1, q1, t1) = override_step outside.parse_duration not_duration env _ _ _ times in
      let (d2, q2, t2) = override_step outside.parse_duration not_duration env _ _ _ t1 in
      let (d3, q3, t3) = override_step outside.parse_duration not_duration env _ _ _ t2 in
      let (d4, q4, t4) = override_step outside.parse_duration not_duration env _ _ _ t3 in
      let (d5, q5, t5) = override_step outside.parse_duration not_duration env _ _ _ t4 in
      let (d6, q6, t6) = override_step outside.parse_duration not_duration env _ _ _ t5 in
      let (d7, q7, t7) = override_step outside.parse_duration not_duration env _ _ _ t6 in
      let (d8, q8, t8) = override_step outside.parse_duration not_duration env _ _ _ t7 in
      let e1 : counted o1 o2 o3 o4 (with_origins env (base_config env id)) ≡ c1 =
        override_end parse_trimmed not_integer env _ s4 in
      let e2 : sized o5 c1 ≡ c2 = override_end parse_trimmed not_integer env _ s5 in
      let e3 : timed d1 d2 d3 d4 d5 d6 d7 d8 c2 ≡ c =
        override_end outside.parse_duration not_duration env _ t8 in
      let whole : c
          ≡ timed d1 d2 d3 d4 d5 d6 d7 d8
              (sized o5 (counted o1 o2 o3 o4 (with_origins env (base_config env id)))) =
        sym (
          ap (λ (x : Config). timed d1 d2 d3 d4 d5 d6 d7 d8 (sized o5 x)) e1
          ∙ ap (timed d1 d2 d3 d4 d5 d6 d7 d8) e2
          ∙ e3) in
      (
        id, o1, o2, o3, o4, o5, d1, d2, d3, d4, d5, d6, d7, d8, found, r1, r2, r3, r4, r5, q1, q2,
        q3, q4, q5, q6, q7, q8, whole, valid,
      )

  -- A configuration that LoadFrom returns is valid and names its node; every integer and every duration
  -- is what its variable spells, or its default where the variable is not set, and the origins are the
  -- listed ones, or the local ones outside production.
  pub load_from-ok :
      (c : Config)
      → load_from outside env ≡ ok c
      → IsValidConfig outside c × (c.node_id ≢ []) × IsRead outside env c
  unfolding with_origins base_config
  load_from-ok c h =
      let (
        id, o1, o2, o3, o4, o5, d1, d2, d3, d4, d5, d6, d7, d8, found, r1, r2, r3, r4, r5, q1, q2,
        q3, q4, q5, q6, q7, q8, whole, valid,
      ) =
        loaded_whole c h in
      (
        (validate_config_iff outside c).0 valid,
        λ blank. load_node_id-ne-nil id found (sym (ap (λ (x : Config). x.node_id) whole) ∙ blank),
        record {
          connections = (o1, r1, ap (λ (x : Config). x.max_connections) whole);
          queue = (o2, r2, ap (λ (x : Config). x.outbound_queue_capacity) whole);
          messages = (o3, r3, ap (λ (x : Config). x.rate_limit_messages) whole);
          rooms = (o4, r4, ap (λ (x : Config). x.max_rooms_per_client) whole);
          size = (o5, r5, ap (λ (x : Config). x.websocket_max_message_size) whole);
          header = (d1, q1, ap (λ (x : Config). x.read_header) whole);
          read = (d2, q2, ap (λ (x : Config). x.read_timeout) whole);
          write = (d3, q3, ap (λ (x : Config). x.write_timeout) whole);
          idle = (d4, q4, ap (λ (x : Config). x.idle_timeout) whole);
          shutdown = (d5, q5, ap (λ (x : Config). x.shutdown_timeout) whole);
          session_read = (d6, q6, ap (λ (x : Config). x.websocket_read_timeout) whole);
          session_write = (d7, q7, ap (λ (x : Config). x.websocket_write_timeout) whole);
          interval = (d8, q8, ap (λ (x : Config). x.rate_limit_interval) whole);
          origins =
              ap (λ (x : Config). x.allowed_origins) whole
              ∙ origins_end id c (ap (λ (x : Config). x.environment) whole);
        },
      )

  -- The environment is the one that its variable names, or development.
  pub load_from-environment :
      (c : Config)
      → load_from outside env ≡ ok c
      → c.environment ≡ value_or_default env (text "BLOCKFORGE_ENV") (text "development")
  unfolding with_origins base_config
  load_from-environment c h =
      let (
        id, o1, o2, o3, o4, o5, d1, d2, d3, d4, d5, d6, d7, d8, found, r1, r2, r3, r4, r5, q1, q2,
        q3, q4, q5, q6, q7, q8, whole, valid,
      ) =
        loaded_whole c h in
      ap (λ (x : Config). x.environment) whole ∙ ground arith
