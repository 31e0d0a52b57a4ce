-- ===== src/Config/Valid.antt =====
-- go-server/internal/config/config.go: which settings Validate accepts.
use websocket.Common.{
  ℕ, ◌≤◌, ◌<◌, ◌≡◌, ◌≢◌, ◌↔◌, ◌⊎◌, inl, inr, refl, Bool, true, false, ◌&&◌, not, List, [], ◌∷◌,
  Option-cases, none, some, arith, is_empty, Bool-cases, is_empty_iff, ap, ◌∙◌,
}
use websocket.Text.{Str, ◌==◌, ==_iff, text}
use websocket.Integer.{ℤ, pos, negsuc, is_positive, parse_int}
use websocket.Http.{ParsedUrl}
use websocket.Config.{Config, Outside}
use websocket.Config.Validate.{
  Problem, has_star, problem_unless, known_environment, durations, check_durations,
  validate_address, validate_origin, check_origins, check_address, validate_config,
}

abbrev pub IsPositive : ℤ → Type 0
IsPositive z = (n : ℕ) × (z ≡ pos n) × (0 < n)

is_positive_sound : (z : ℤ) → is_positive z ≡ true → IsPositive z
is_positive_sound (pos n) h = (n, refl, ground arith)
is_positive_sound (negsuc n) h = cc

is_positive_complete : (z : ℤ) → IsPositive z → is_positive z ≡ true
is_positive_complete z (n, e, h) = rw e (ground arith)

abbrev pub All {ℓ} : {A : Type ℓ} → (A → Type 0) → List A → Type 0
All P [] = Unit
All P (x ∷ xs) = P x × All P xs

not_the_star : (origin : Str) → has_star origin ≡ false → (origin == text "*") ≡ false
unfolding has_star
not_the_star origin plain = elim (Bool-cases (origin == text "*")) [
  | inr other ↦ other
  | inl star ↦
      let marked : has_star origin ≡ true = ap has_star ((==_iff origin (text "*")).0 star) in cc
]

web_scheme : (s : Str) → (s ≡ text "http") ⊎ (s ≡ text "https") → is_empty s ≡ false
web_scheme s (inl e) = rw e refl
web_scheme s (inr e) = rw e refl

check_durations_sound :
    (ds : List (Str × ℤ)) → check_durations ds ≡ [] → All (λ (d : Str × ℤ). IsPositive d.1) ds
unfolding check_durations
check_durations_sound [] h = tt
check_durations_sound ((key, z) ∷ ds) h = elim (Bool-cases (is_positive z)) [
  | inl positive ↦ (is_positive_sound z positive, check_durations_sound ds (ground arith))
  | inr other ↦ absurd (ground arith)
]

check_durations_complete :
    (ds : List (Str × ℤ)) → All (λ (d : Str × ℤ). IsPositive d.1) ds → check_durations ds ≡ []
unfolding check_durations
check_durations_complete [] h = refl
check_durations_complete ((key, z) ∷ ds) h =
    rw (is_positive_complete z h.0) (check_durations_complete ds h.1)

module _ (outside : Outside) where
  pub record IsAddress (address : Str) : Type 0 where
    pub host : Str
    pub port : Str
    pub number : ℕ
    pub split : outside.split_host_port address ≡ some (host, port)
    pub numeric : parse_int port ≡ some (pos number)
    pub bounded : number ≤ 65535

  pub record IsOrigin (origin : Str) : Type 0 where
    pub url : ParsedUrl
    pub plain : has_star origin ≡ false
    pub parsed : outside.parse_url origin ≡ some url
    pub web : (url.scheme ≡ text "http") ⊎ (url.scheme ≡ text "https")
    pub hosted : url.host ≢ []
    pub pathless : url.path ≡ []
    pub queryless : url.raw_query ≡ []
    pub fragmentless : url.fragment ≡ []

  validate_address_sound :
      (address : Str) → validate_address outside address ≡ none → IsAddress address
  unfolding validate_address
  validate_address_sound address h = elim (Option-cases (outside.split_host_port address)) [
    | inl unsplit ↦ absurd (ground arith)
    | inr ((host, port), split) ↦ elim (Option-cases (parse_int port)) [
      | inl words ↦ absurd (ground arith)
      | inr (negsuc n, below) ↦ absurd (ground arith)
      | inr (pos n, numeric) ↦ record {
        host = host;
        port = port;
        number = n;
        split = split;
        numeric = numeric;
        bounded = ground arith;
      }
    ]
  ]

  validate_address_complete :
      (address : Str) → IsAddress address → validate_address outside address ≡ none
  unfolding validate_address
  validate_address_complete address v =
      rw (v.split, validate_address, v.numeric) (ground (arith, v.bounded))

  validate_origin_sound : (origin : Str) → validate_origin outside origin ≡ none → IsOrigin origin
  unfolding validate_origin
  validate_origin_sound origin h = elim (Option-cases (outside.parse_url origin)) [
    | inl unparsed ↦ absurd (ground arith)
    | inr (u, parsed) ↦ record {
      url = u;
      plain = ground arith;
      parsed = parsed;
      web = ground (arith, ==_iff u.scheme (text "http"), ==_iff u.scheme (text "https"));
      hosted = ground (arith, is_empty_iff u.host);
      pathless = ground (arith, is_empty_iff u.path);
      queryless = ground (arith, is_empty_iff u.raw_query);
      fragmentless = ground (arith, is_empty_iff u.fragment);
    }
  ]

  validate_origin_complete :
      (origin : Str) → IsOrigin origin → validate_origin outside origin ≡ none
  unfolding validate_origin
  validate_origin_complete origin v =
      let u = v.url in
      let plain = v.plain in
      let web = v.web in
      let hosted = v.hosted in
      let schemed : is_empty u.scheme ≡ false = web_scheme u.scheme web in
      rw (v.parsed, validate_origin, not_the_star origin plain)
        (ground (
          arith,
          is_empty_iff u.host,
          is_empty_iff u.path,
          is_empty_iff u.raw_query,
          is_empty_iff u.fragment,
          v.pathless,
          v.queryless,
          v.fragmentless,
          ==_iff u.scheme (text "http"),
          ==_iff u.scheme (text "https"),
        ))

  check_origins_sound :
      (origins : List Str) (rest : List Problem)
      → check_origins outside origins rest ≡ []
      → All IsOrigin origins × (rest ≡ [])
  unfolding check_origins
  check_origins_sound [] rest h = (tt, h)
  check_origins_sound (o ∷ origins) rest h = elim (Option-cases (validate_origin outside o)) [
    | inr (p, bad) ↦ absurd (ground arith)
    | inl good ↦
        let (all, end) = check_origins_sound origins rest (ground arith) in
        ((validate_origin_sound o good, all), end)
  ]

  check_origins_complete :
      (origins : List Str) (rest : List Problem)
      → All IsOrigin origins
      → check_origins outside origins rest ≡ rest
  unfolding check_origins
  check_origins_complete [] rest h = refl
  check_origins_complete (o ∷ origins) rest h =
      rw (validate_origin_complete o h.0, check_origins) (check_origins_complete origins rest h.1)

  -- What a valid configuration is.
  pub record IsValidConfig (c : Config) : Type 0 where
    pub known :
        (c.environment ≡ text "development")
        ⊎ (c.environment ≡ text "test")
        ⊎ (c.environment ≡ text "production")
    pub address : IsAddress c.http_address
    pub connections : IsPositive c.max_connections
    pub queue : IsPositive c.outbound_queue_capacity
    pub message_size : IsPositive c.websocket_max_message_size
    pub messages : IsPositive c.rate_limit_messages
    pub rooms : IsPositive c.max_rooms_per_client
    pub production : c.environment ≡ text "production" → c.allowed_origins ≢ []
    pub origins : All IsOrigin c.allowed_origins
    pub timed : All (λ (d : Str × ℤ). IsPositive d.1) (durations c)

  known_environment_iff :
      (e : Str)
      → (known_environment e ≡ true)
        ↔ ((e ≡ text "development") ⊎ (e ≡ text "test") ⊎ (e ≡ text "production"))
  unfolding known_environment
  known_environment_iff e =
      ground
        (arith, ==_iff e (text "development"), ==_iff e (text "test"), ==_iff e (text "production"))

  problem_unless_iff :
      (b : Bool) (p : Problem) (rest : List Problem)
      → (problem_unless b p rest ≡ []) ↔ ((b ≡ true) × (rest ≡ []))
  problem_unless_iff b p rest = ground arith

  check_address_iff :
      (address : Str) (rest : List Problem)
      → (check_address outside address rest ≡ [])
        ↔ ((validate_address outside address ≡ none) × (rest ≡ []))
  unfolding check_address
  check_address_iff address rest = ground arith

  required_origins :
      (c : Config)
      → IsValidConfig c
      → not (c.environment == text "production" && is_empty c.allowed_origins) ≡ true
  required_origins c v = elim (Bool-cases (c.environment == text "production")) [
    | inr other ↦ rw other refl
    | inl live ↦
        let some_origin = v.production ((==_iff c.environment (text "production")).0 live) in
        ground (arith, is_empty_iff c.allowed_origins)
  ]

  pub validate_config_iff : (c : Config) → (validate_config outside c ≡ []) ↔ IsValidConfig c
  unfolding validate_config
  validate_config_iff c = (
    λ h.
        let (known, h1) = (problem_unless_iff _ _ _).0 h in
        let (address, h2) = (check_address_iff c.http_address _).0 h1 in
        let (connections, h3) = (problem_unless_iff _ _ _).0 h2 in
        let (queue, h4) = (problem_unless_iff _ _ _).0 h3 in
        let (message_size, h5) = (problem_unless_iff _ _ _).0 h4 in
        let (messages, h6) = (problem_unless_iff _ _ _).0 h5 in
        let (rooms, h7) = (problem_unless_iff _ _ _).0 h6 in
        let (production, h8) = (problem_unless_iff _ _ _).0 h7 in
        let (origins, h9) = check_origins_sound c.allowed_origins _ h8 in
        record {
          known = (known_environment_iff c.environment).0 known;
          address = validate_address_sound c.http_address address;
          connections = is_positive_sound c.max_connections connections;
          queue = is_positive_sound c.outbound_queue_capacity queue;
          message_size = is_positive_sound c.websocket_max_message_size message_size;
          messages = is_positive_sound c.rate_limit_messages messages;
          rooms = is_positive_sound c.max_rooms_per_client rooms;
          production = λ e nobody. ground (
            arith,
            production,
            ==_iff c.environment (text "production"),
            is_empty_iff c.allowed_origins,
          );
          origins = origins;
          timed = check_durations_sound (durations c) h9;
        },
    λ v.
        let required : not (c.environment == text "production" && is_empty c.allowed_origins)
            ≡ true =
          required_origins c v in
        (problem_unless_iff _ _ _).1 (
          (known_environment_iff c.environment).1 v.known,
          (check_address_iff c.http_address _).1 (
            validate_address_complete c.http_address v.address,
            (problem_unless_iff _ _ _).1 (
              is_positive_complete c.max_connections v.connections,
              (problem_unless_iff _ _ _).1 (
                is_positive_complete c.outbound_queue_capacity v.queue,
                (problem_unless_iff _ _ _).1 (
                  is_positive_complete c.websocket_max_message_size v.message_size,
                  (problem_unless_iff _ _ _).1 (
                    is_positive_complete c.rate_limit_messages v.messages,
                    (problem_unless_iff _ _ _).1 (
                      is_positive_complete c.max_rooms_per_client v.rooms,
                      (problem_unless_iff _ _ _).1 (
                        required,
                        check_origins_complete c.allowed_origins _ v.origins
                            ∙ check_durations_complete (durations c) v.timed,
                      ),
                    ),
                  ),
                ),
              ),
            ),
          ),
        ),
  )
