-- ===== src/Http/Admission.antt =====
-- go-server/internal/httpapi/websocket.go: which requests become sessions, and how many at once.
use websocket.Common.{
  ℕ, suc, ◌+◌, ◌%◌, ◌^◌, ◌≤◌, ◌<◌, ◌≡◌, ◌↔◌, ◌⊎◌, true, Option, some, ltb, if◌then◌else◌, List, [],
  ◌∷◌, arith, inl, inr, if_cases,
}
use websocket.Text.{Str}
use websocket.Observability.{add_one, increment_upgrades_attempted, increment_upgrades_rejected}
use websocket.Http.{
  new_connection_id, Request, Boundary, Outcome, accepted, ParsedUrl, check_origin, is_ready,
  serve_http, reject, establish, end_session,
}

module _ (parse : Str → Option ParsedUrl) where
  -- A request becomes a session exactly if the process is ready, it asks for an upgrade, its origin is
  -- allowed, it is authenticated, fewer sessions run than the limit, and the upgrade and the
  -- connection identifier succeed.
  pub accepted_iff :
      (r : Request) (b : Boundary) (connection_id user : Str)
      → ((serve_http parse r b).1 ≡ accepted connection_id user) ↔ (
          (is_ready b.health ≡ true)
          × (r.is_upgrade ≡ true)
          × (check_origin parse b.allowed_origins r.origin ≡ true)
          × (r.principal ≡ some user)
          × (b.admitted < b.max_connections)
          × (r.upgrades ≡ true)
          × (new_connection_id r.random ≡ some connection_id))
  unfolding serve_http reject establish
  accepted_iff r b connection_id user = ground arith

-- Something that happens at the boundary: a request, or the end of a running session.
pub data Happening : Type 0 where
  arrives : Request → Happening
  ends : Happening

-- What is counted: the accepted sessions in all.
abbrev is_accepted : Outcome → ℕ
is_accepted (accepted connection_id user) = 1
is_accepted _ = 0

pub record IsCounted (state : Boundary × ℕ × ℕ) : Type 0 where
  -- the tokens taken are the sessions that were accepted and have not ended
  pub running : state.0.admitted + state.2 ≡ state.1
  pub limited : state.0.admitted ≤ state.0.max_connections
  pub attempts :
      state.0.metrics.upgrades_attempted ≡ (state.0.metrics.upgrades_rejected + state.1) % 2 ^ 64

module _ (parse : Str → Option ParsedUrl) where
  serve_http_effect :
      (r : Request) (b : Boundary)
      → let after = serve_http parse r b in
        (after.0.max_connections ≡ b.max_connections)
        × (after.0.metrics.upgrades_attempted ≡ add_one b.metrics.upgrades_attempted)
        × (((is_accepted after.1 ≡ 1)
              × (after.0.admitted ≡ suc b.admitted)
              × (b.admitted < b.max_connections)
              × (after.0.metrics.upgrades_rejected ≡ b.metrics.upgrades_rejected))
            ⊎ ((is_accepted after.1 ≡ 0)
                × (after.0.admitted ≡ b.admitted)
                × (after.0.metrics.upgrades_rejected ≡ add_one b.metrics.upgrades_rejected)))
  unfolding serve_http reject establish increment_upgrades_attempted increment_upgrades_rejected
  serve_http_effect r b = ground arith

  -- The boundary after what happened, and how many sessions were accepted and have ended. Only a
  -- running session can end.
  abbrev pub happen : List Happening → Boundary → (accepted ended : ℕ) → Boundary × ℕ × ℕ
  happen [] b total ended = (b, total, ended)
  happen (arrives r ∷ rest) b total ended =
      let after = serve_http parse r b in happen rest after.0 (total + is_accepted after.1) ended
  happen (ends ∷ rest) b total ended =
      if ltb ended total
      then happen rest (end_session b) total (suc ended)
      else happen rest b total ended

  serve_http-IsCounted :
      (r : Request) (b : Boundary) (total ended : ℕ)
      → IsCounted (b, total, ended)
      → let after = serve_http parse r b in IsCounted (after.0, total + is_accepted after.1, ended)
  unfolding add_one
  serve_http-IsCounted r b total ended v =
      let sum = v.running in
      let limit = v.limited in
      let attempts = v.attempts in
      let (same_limit, attempted, kinds) = serve_http_effect r b in
      elim kinds [
        | inl (one, admitted, room, same) ↦ record {
          running = omega arith;
          limited = omega arith;
          attempts = omega arith;
        }
        | inr (zero_more, admitted, more) ↦ record {
          running = omega arith;
          limited = omega arith;
          attempts = omega arith;
        }
      ]

  one_less :
      (b : Boundary) (total ended : ℕ)
      → ltb ended total ≡ true
      → IsCounted (b, total, ended)
      → IsCounted (end_session b, total, suc ended)
  unfolding end_session
  one_less b total ended runs v = record {
    running = ground (arith, v.running);
    limited = omega (arith, v.limited);
    attempts = v.attempts;
  }

  -- If these hold of a boundary, they hold after whatever arrives and ends there: the tokens taken
  -- are the sessions that were accepted and have not ended, they are never more than the limit,
  -- and modulo 2^64 every upgrade attempted was either rejected or accepted.
  pub happen-IsCounted :
      (happenings : List Happening) (b : Boundary) (total ended : ℕ)
      → IsCounted (b, total, ended)
      → IsCounted (happen happenings b total ended)
  happen-IsCounted [] b total ended v = v
  happen-IsCounted (arrives r ∷ rest) b total ended v =
      happen-IsCounted rest _ _ ended (serve_http-IsCounted r b total ended v)
  happen-IsCounted (ends ∷ rest) b total ended v =
      if_cases (λ (t : Boundary × ℕ × ℕ). IsCounted t) (ltb ended total)
        (λ runs.
          happen-IsCounted rest (end_session b) total (suc ended) (one_less b total ended runs v))
        (λ none_runs. happen-IsCounted rest b total ended v)
