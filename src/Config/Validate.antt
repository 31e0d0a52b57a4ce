-- ===== src/Config/Validate.antt =====
-- go-server/internal/config/config.go: Validate, and what it accepts.
use websocket.Common.{
  Bool, false, ◌&&◌, ◌||◌, not, List, [], ◌∷◌, Option, none, some, if◌then◌else◌, is_empty, nat_eq,
  ltb,
}
use websocket.Text.{Str, ◌==◌, text}
use websocket.Integer.{ℤ, pos, negsuc, is_positive, parse_int}
use websocket.Config.{Config, Outside}

pub data OriginProblem : Type 0 where
  wildcard not_absolute wrong_scheme has_more : OriginProblem

pub data AddressProblem : Type 0 where
  no_host_port wrong_port : AddressProblem

-- The errors that Validate joins; a key names the variable.
pub data Problem : Type 0 where
  unknown_environment origins_required : Problem
  bad_address : AddressProblem → Problem
  not_positive : (key : Str) → Problem
  bad_origin : (origin : Str) → OriginProblem → Problem

unfoldable pub has_star : Str → Bool
has_star [] = false
has_star (c ∷ s) = nat_eq c b'*' || has_star s

-- One step of `errs = append(errs, …)`, in front of the errors that follow.
abbrev pub problem_unless : Bool → Problem → List Problem → List Problem
problem_unless b p rest = if b then rest else p ∷ rest

unfoldable pub known_environment : Str → Bool
known_environment e = e == text "development" || e == text "test" || e == text "production"

-- The durations that must be positive, with the variables that they come from.
unfoldable pub durations : Config → List (Str × ℤ)
durations c =
    (text "BLOCKFORGE_HTTP_READ_HEADER_TIMEOUT", c.read_header)
    ∷ (text "BLOCKFORGE_HTTP_READ_TIMEOUT", c.read_timeout)
    ∷ (text "BLOCKFORGE_HTTP_WRITE_TIMEOUT", c.write_timeout)
    ∷ (text "BLOCKFORGE_HTTP_IDLE_TIMEOUT", c.idle_timeout)
    ∷ (text "BLOCKFORGE_SHUTDOWN_TIMEOUT", c.shutdown_timeout)
    ∷ (text "BLOCKFORGE_WS_READ_TIMEOUT", c.websocket_read_timeout)
    ∷ (text "BLOCKFORGE_WS_WRITE_TIMEOUT", c.websocket_write_timeout)
    ∷ (text "BLOCKFORGE_WS_RATE_LIMIT_INTERVAL", c.rate_limit_interval)
    ∷ []

unfoldable pub check_durations : List (Str × ℤ) → List Problem
check_durations [] = []
check_durations ((key, value) ∷ rest) =
    problem_unless (is_positive value) (not_positive key) (check_durations rest)

module _ (outside : Outside) where
  unfoldable pub validate_address : Str → Option AddressProblem
  validate_address address = elim (outside.split_host_port address) [
    | none ↦ some no_host_port
    | some (host, port) ↦ elim (parse_int port) [
      | none ↦ some wrong_port
      | some (negsuc n) ↦ some wrong_port
      | some (pos n) ↦ if ltb 65535 n then some wrong_port else none
    ]
  ]

  unfoldable pub validate_origin : Str → Option OriginProblem
  validate_origin origin =
      if origin == text "*" || has_star origin
      then some wildcard
      else elim (outside.parse_url origin) [
        | none ↦ some not_absolute
        | some u ↦
            if is_empty u.scheme || is_empty u.host
            then some not_absolute
            else if not (u.scheme == text "http") && not (u.scheme == text "https")
            then some wrong_scheme
            else if not (is_empty u.path) || not (is_empty u.raw_query) || not (is_empty u.fragment)
            then some has_more
            else none
      ]

  unfoldable pub check_origins : List Str → List Problem → List Problem
  check_origins [] rest = rest
  check_origins (origin ∷ origins) rest = elim (validate_origin origin) [
    | none ↦ check_origins origins rest
    | some p ↦ bad_origin origin p ∷ check_origins origins rest
  ]

  unfoldable pub check_address : Str → List Problem → List Problem
  check_address address rest = elim (validate_address address) [
    | none ↦ rest
    | some p ↦ bad_address p ∷ rest
  ]

  -- The joined errors, in order; none of them is the nil error.
  unfoldable pub validate_config : Config → List Problem
  unfolding check_durations
  validate_config c = problem_unless (known_environment c.environment) unknown_environment (
      check_address c.http_address (
        problem_unless (is_positive c.max_connections)
          (not_positive (text "BLOCKFORGE_MAX_CONNECTIONS"))
          (problem_unless (is_positive c.outbound_queue_capacity)
            (not_positive (text "BLOCKFORGE_OUTBOUND_QUEUE_CAPACITY"))
            (problem_unless (is_positive c.websocket_max_message_size)
              (not_positive (text "BLOCKFORGE_WS_MAX_MESSAGE_SIZE"))
              (problem_unless (is_positive c.rate_limit_messages)
                (not_positive (text "BLOCKFORGE_WS_RATE_LIMIT_MESSAGES"))
                (problem_unless (is_positive c.max_rooms_per_client)
                  (not_positive (text "BLOCKFORGE_WS_MAX_ROOMS_PER_CLIENT"))
                  (problem_unless
                    (not (c.environment == text "production" && is_empty c.allowed_origins))
                    origins_required
                    (check_origins c.allowed_origins (check_durations (durations c))))))))))
