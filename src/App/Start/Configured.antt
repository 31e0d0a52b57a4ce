-- ===== src/App/Start/Configured.antt =====
-- go-server/cmd/server/main.go: what a server that is started keeps of its configuration.
use websocket.Common.{
  sym, ap, ◌∙◌, ◌↔◌, inl, inr, Bool-cases, ℕ, ◌≡◌, ◌≢◌, refl, Bool, some, Option, Option-cases,
  List, [], ◌∷◌, arith, is_empty,
}
use websocket.Text.{trim_space, Str, text, ==_iff}
use websocket.Integer.{magnitude}
use websocket.Broker.Event.{EventCodec}
use websocket.Config.{value_or_default, Config, Outside, Environment}
use websocket.Config.Load.{ok, load_from}
use websocket.Config.Load.Laws.{load_from-environment}
use websocket.Http.{
  authenticate_development, Outcome, rejected, dropped, Request, ParsedUrl, Boundary, accepted,
  serve_http, reject, establish, end_session, allowed_set,
}
use websocket.Http.Admission.{accepted_iff}
use websocket.Realtime.Message.{Codec}
use websocket.Realtime.Rooms.{Authorizer}
use websocket.Realtime.Node.{Node}
use websocket.App.{
  Server, ServerStep, serves, requests, returns, works, broker_reports, cancelled, listener_fails,
  drain_passes, finishes, server_step, server_run, new_server, new_server_with_authenticator,
  default_authenticator, begin_serving, begin_shutdown, end_drain, listener_failed, finish,
  hand_over, handle_request, authenticated,
}
use websocket.App.Start.{runs, start_process, start_process-runs}

-- What the configuration settles.
pub record IsConfigured (c : Config) (s : Server) : Type 0 where
  pub authenticates : s.authenticator ≡ default_authenticator c.environment
  pub allows : s.boundary.allowed_origins ≡ allowed_set c.allowed_origins
  pub limit : s.boundary.max_connections ≡ magnitude c.max_connections

-- Two servers that differ elsewhere only.
carries :
    (c : Config) (s t : Server)
    → t.authenticator ≡ s.authenticator
    → t.boundary.allowed_origins ≡ s.boundary.allowed_origins
    → t.boundary.max_connections ≡ s.boundary.max_connections
    → IsConfigured c s
    → IsConfigured c t
carries c s t same_authenticator same_origins same_limit v = record {
  authenticates = same_authenticator ∙ v.authenticates;
  allows = same_origins ∙ v.allows;
  limit = same_limit ∙ v.limit;
}

module _ (codec : Codec) (events : EventCodec) (publish : Str → Str → Node → Node × Bool)
    (auth : Authorizer) (parse : Str → Option ParsedUrl) where
  serve_http-settled :
      (r : Request) (b : Boundary)
      → ((serve_http parse r b).0.allowed_origins ≡ b.allowed_origins)
        × ((serve_http parse r b).0.max_connections ≡ b.max_connections)
  unfolding serve_http reject establish
  serve_http-settled r b = ground arith

  hand_over-IsConfigured :
      (c : Config) (outcome : Outcome) (now : ℕ) (s : Server)
      → IsConfigured c s
      → IsConfigured c (hand_over outcome now s)
  unfolding hand_over
  hand_over-IsConfigured c (rejected status reason) now s v = v
  hand_over-IsConfigured c dropped now s v = v
  hand_over-IsConfigured c (accepted conn user) now s v = carries c s _ refl refl refl v

  server_step-IsConfigured :
      (c : Config) (x : ServerStep codec events publish auth parse) (s : Server)
      → IsConfigured c s
      → IsConfigured c (server_step codec events publish auth parse s x)
  unfolding server_step handle_request end_session begin_serving begin_shutdown end_drain
      listener_failed finish
  server_step-IsConfigured c (serves subscribed) s v =
      carries c s _ (ground arith) (ground arith) (ground arith) v
  server_step-IsConfigured c (requests user_id r now) s v =
      let (same_origins, same_limit) = serve_http-settled (authenticated s user_id r) s.boundary in
      hand_over-IsConfigured c (serve_http parse (authenticated s user_id r) s.boundary).1 now _
        (carries c s _ refl same_origins same_limit v)
  server_step-IsConfigured c returns s v = carries c s _ refl refl refl v
  server_step-IsConfigured c (works x) s v = carries c s _ refl refl refl v
  server_step-IsConfigured c (broker_reports answer) s v = carries c s _ refl refl refl v
  server_step-IsConfigured c cancelled s v =
      carries c s _ (ground arith) (ground arith) (ground arith) v
  server_step-IsConfigured c listener_fails s v =
      carries c s _ (ground arith) (ground arith) (ground arith) v
  server_step-IsConfigured c drain_passes s v =
      carries c s _ (ground arith) (ground arith) (ground arith) v
  server_step-IsConfigured c finishes s v =
      carries c s _ (ground arith) (ground arith) (ground arith) v

  server_run-IsConfigured :
      (c : Config) (xs : List (ServerStep codec events publish auth parse)) (s : Server)
      → IsConfigured c s
      → IsConfigured c (server_run codec events publish auth parse s xs)
  unfolding server_run
  server_run-IsConfigured c [] s v = v
  server_run-IsConfigured c (x ∷ xs) s v =
      server_run-IsConfigured c xs (server_step codec events publish auth parse s x)
        (server_step-IsConfigured c x s v)

  new_server-IsConfigured :
      (c : Config) (connected : Option Bool) (s : Server)
      → new_server c connected ≡ some s
      → IsConfigured c s
  unfolding new_server new_server_with_authenticator
  new_server-IsConfigured c connected s made = elim (Bool-cases (is_empty c.broker_url)) [
    | inl alone ↦ record {
      authenticates = ground arith;
      allows = ground arith;
      limit = ground arith;
    }
    | inr joined ↦ elim (Option-cases connected) [
      | inl unreachable ↦ absurd (ground arith)
      | inr (up, reached) ↦ record {
        authenticates = ground arith;
        allows = ground arith;
        limit = ground arith;
      }
    ]
  ]

  started-IsConfigured :
      (outside : Outside) (env : Environment) (listens : Str → Bool) (connected : Option Bool)
      (s : Server) (xs : List (ServerStep codec events publish auth parse))
      → start_process outside env listens connected ≡ runs s
      → (c : Config) × (load_from outside env ≡ ok c)
        × IsConfigured c (server_run codec events publish auth parse s xs)
  started-IsConfigured outside env listens connected s xs started =
      let (c, loaded, made) = start_process-runs outside env listens connected s started in
      (c, loaded, server_run-IsConfigured c xs s (new_server-IsConfigured c connected s made))

  -- Whom the default authenticator knows.
  default_authenticator_iff :
      (environment user_id user : Str)
      → (default_authenticator environment user_id ≡ some user) ↔ (
          (environment ≢ text "production")
          × (trim_space user_id ≢ [])
          × (user ≡ trim_space user_id))
  unfolding default_authenticator authenticate_development
  default_authenticator_iff environment user_id user =
      ground (arith, ==_iff environment (text "production"))

  -- A server that cmd/server starts with BLOCKFORGE_ENV set to production accepts no request, whoever
  -- asks and whatever has happened before.
  pub production-rejects :
      (outside : Outside) (env : Environment) (listens : Str → Bool) (connected : Option Bool)
      (s : Server) (xs : List (ServerStep codec events publish auth parse)) (user_id : Str)
      (r : Request) (conn user : Str)
      → value_or_default env (text "BLOCKFORGE_ENV") (text "development") ≡ text "production"
      → start_process outside env listens connected ≡ runs s
      → let s' = server_run codec events publish auth parse s xs in
        (serve_http parse (authenticated s' user_id r) s'.boundary).1 ≢ accepted conn user
  production-rejects outside env listens connected s xs user_id r conn user production started
        taken =
      let (c, loaded, v) = started-IsConfigured outside env listens connected s xs started in
      let known = ((accepted_iff parse _ _ conn user).0 taken).3 in
      let named = load_from-environment outside env c loaded in
      let here = ap (λ (f : Str → Option Str). f user_id) (sym v.authenticates) ∙ known in
      ((default_authenticator_iff c.environment user_id user).0 here).0 (named ∙ production)
