-- ===== src/Http.antt =====
-- go-server/internal/httpapi/websocket.go and health.go: who is admitted to a session. The parser of
-- net/url, the authenticator, the upgrade and the random source are outside; what a request shows
-- of them is in `Request`. The channel `admission` is the number of its tokens. Log lines and the
-- bodies of the answers are left out.
pub mod Admission
mod Tests
use websocket.Common.{
  ℕ, suc, ◌+◌, ◌-◌, Bool, true, false, ◌&&◌, ◌||◌, not, Option, none, some, ltb, if◌then◌else◌,
  is_some, is_empty, List, [], ◌∷◌, ◌++◌,
}
use websocket.Text.{Str, ◌==◌, text, trim_space}
use websocket.Dict.{StrSet, lookup, insert}
use websocket.Observability.{Metrics, increment_upgrades_attempted, increment_upgrades_rejected}
use websocket.Realtime.Message.{hex_encode}

-- `checker` is what the registered function reports, if there is one.
pub record Health : Type 0 where
  pub ready_flag : Bool
  pub checker : Option Bool

abbrev pub new_health : Health
new_health = record { ready_flag = false; checker = none }

unfoldable pub is_ready : Health → Bool
is_ready h =
    if not h.ready_flag then false else elim h.checker [ none ↦ true | some answer ↦ answer ]

abbrev pub set_ready : Bool → Health → Health
set_ready on h = record h { ready_flag = on }

-- What the registered checker answers from now on.
abbrev pub set_checker : Bool → Health → Health
set_checker answer h = record h { checker = some answer }

-- The status and the state that /healthz and /readyz answer.
abbrev pub healthz : ℕ × Str
healthz = (200, text "ok")

unfoldable pub readyz : Health → ℕ × Str
readyz h = if not (is_ready h) then (503, text "not_ready") else (200, text "ready")

-- The fields of a url.URL that are read.
pub record ParsedUrl : Type 0 where
  pub scheme : Str
  pub host : Str
  pub path : Str
  pub raw_query : Str
  pub fragment : Str

-- What the code learns of one request, in the order in which it asks.
pub record Request : Type 0 where
  pub is_upgrade : Bool
  pub origin : Str
  -- the identity that the authenticator establishes
  pub principal : Option Str
  -- whether the upgrade succeeds
  pub upgrades : Bool
  -- the 16 bytes that rand.Read fills in, if it succeeds
  pub random : Option (List ℕ)

pub record Boundary : Type 0 where
  pub health : Health
  pub allowed_origins : StrSet
  pub max_connections : ℕ
  pub admitted : ℕ
  pub metrics : Metrics

-- `dropped` is an admission that ends before the session starts.
pub data Outcome : Type 0 where
  rejected : (status : ℕ) (reason : Str) → Outcome
  dropped : Outcome
  accepted : (connection_id user_id : Str) → Outcome

unfoldable pub new_connection_id : Option (List ℕ) → Option Str
new_connection_id none = none
new_connection_id (some value) = some (text "conn_" ++ hex_encode value)

-- DevelopmentAuthenticator, on the query parameter user_id.
unfoldable pub authenticate_development : Str → Option Str
authenticate_development user_id =
    let user = trim_space user_id in if is_empty user then none else some user

-- RejectingAuthenticator.
abbrev pub authenticate_rejecting : Str → Option Str
authenticate_rejecting user_id = none

unfoldable pub allowed_set : List Str → StrSet
allowed_set [] = []
allowed_set (origin ∷ origins) = insert origin tt (allowed_set origins)

unfoldable pub origin_shape : ParsedUrl → Bool
origin_shape u =
    (u.scheme == text "http" || u.scheme == text "https")
    && not (is_empty u.host)
    && (is_empty u.path || u.path == text "/")
    && is_empty u.raw_query
    && is_empty u.fragment

module _ (parse : Str → Option ParsedUrl) where
  unfoldable pub check_origin : StrSet → Str → Bool
  unfolding origin_shape
  check_origin allowed header =
      let origin = trim_space header in
      if is_empty origin then true else elim (parse origin) [
        | none ↦ false
        | some u ↦
            if not (origin_shape u)
            then false
            else is_some (lookup (u.scheme ++ text "://" ++ u.host) allowed)
      ]

  unfoldable pub reject : ℕ → Str → Boundary → Boundary × Outcome
  reject status reason b =
      (record b { metrics = increment_upgrades_rejected b.metrics }, rejected status reason)

  -- ServeHTTP after the token is taken; a session that is accepted keeps the token while it runs.
  unfoldable pub establish : Request → Str → Boundary → Boundary × Outcome
  establish r user b =
      let failed_upgrade = record b { metrics = increment_upgrades_rejected b.metrics } in
      if not r.upgrades then (failed_upgrade, dropped) else elim (new_connection_id r.random) [
        | none ↦ (failed_upgrade, dropped)
        | some connection_id ↦ (record b { admitted = suc b.admitted }, accepted connection_id user)
      ]

  unfoldable pub serve_http : Request → Boundary → Boundary × Outcome
  unfolding reject establish
  serve_http r before =
      let b = record before { metrics = increment_upgrades_attempted before.metrics } in
      if not (is_ready b.health)
      then reject 503 (text "not_ready") b
      else if not r.is_upgrade
      then reject 426 (text "upgrade_required") b
      else if not (check_origin b.allowed_origins r.origin)
      then reject 403 (text "origin_rejected") b
      else elim r.principal [
        | none ↦ reject 401 (text "authentication_rejected") b
        | some user ↦
            if ltb b.admitted b.max_connections
            then establish r user b
            else reject 503 (text "connection_limit") b
      ]

-- Handle has returned, and the deferred receive gives the token back.
unfoldable pub end_session : Boundary → Boundary
end_session b = record b { admitted = b.admitted - 1 }
