-- ===== src/Broker/Nats/Closing.antt =====
-- go-server/internal/broker/nats.go: what Close ends, and what is left of a broker after it.
use mathlib.Core.List.{append-nil, append_assoc}
use websocket.Common.{
  ℕ, ◌≡◌, refl, ap, sym, ◌∙◌, ◌⊎◌, inl, inr, true, false, List, [], ◌∷◌, ◌++◌, Option, none, some,
  if_cases,
}
use websocket.Text.{Str}
use websocket.Broker.Nats.{
  JetStream, NatsBroker, NatsError, broker_closed, publish, subscribe, ready, close_nats_broker,
  stop_each, start_consuming, keep_context, on_delivery,
}

-- What can be done to a broker; `elsewhere` is what else happens in the world.
pub data NatsStep {ℓ} (W : Type ℓ) : Type ℓ where
  publishes : Str → Str → NatsStep W
  subscribes : Str → (Str → Str → W → W) → NatsStep W
  closes : NatsStep W
  elsewhere : (W → W) → NatsStep W

-- The contexts of a result.
abbrev pub contexts : NatsError ⊎ ℕ → List ℕ
contexts (inl failure) = []
contexts (inr context) = context ∷ []

-- A subscription appends the context that it returns, if it returns one, to those the broker keeps.
keep_context-subs :
    (b : NatsBroker) (result : Str ⊎ ℕ)
    → let r = keep_context b result in (r.0.subs ≡ b.subs ++ contexts r.1) × (r.0.closed ≡ b.closed)
unfolding keep_context
keep_context-subs b (inl message) = (sym (append-nil b.subs), refl)
keep_context-subs b (inr context) = (refl, refl)

module _ {ℓ} {W : Type ℓ} (js : JetStream W) where
  abbrev pub nats_step : NatsStep W → NatsBroker × W → NatsBroker × W
  nats_step (publishes subject bytes) (b, w) = (b, (publish js subject bytes b w).0)
  nats_step (subscribes subject handler) (b, w) = (subscribe js subject handler b w).0
  nats_step closes (b, w) = close_nats_broker js b w
  nats_step (elsewhere change) (b, w) = (b, change w)

  abbrev pub nats_run : List (NatsStep W) → NatsBroker × W → NatsBroker × W
  nats_run [] s = s
  nats_run (step ∷ steps) s = nats_run steps (nats_step step s)

  -- The contexts that the subscriptions of a run return, in their order.
  abbrev pub started : List (NatsStep W) → NatsBroker × W → List ℕ
  started [] s = []
  started (subscribes subject handler ∷ steps) s =
      let r = subscribe js subject handler s.0 s.1 in contexts r.1 ++ started steps r.0
  started (publishes subject bytes ∷ steps) s =
      started steps (nats_step (publishes subject bytes) s)
  started (closes ∷ steps) s = started steps (nats_step closes s)
  started (elsewhere change ∷ steps) s = started steps (nats_step (elsewhere change) s)

  subscribe_closed :
      (subject : Str) (handler : Str → Str → W → W) (b : NatsBroker) (w : W)
      → b.closed ≡ true
      → subscribe js subject handler b w ≡ ((b, w), inl broker_closed)
  unfolding subscribe
  subscribe_closed subject handler b w gone = rw gone refl

  close_closed : (b : NatsBroker) (w : W) → b.closed ≡ true → close_nats_broker js b w ≡ (b, w)
  unfolding close_nats_broker
  close_closed b w gone = rw gone refl

  close-closed : (b : NatsBroker) (w : W) → (close_nats_broker js b w).0.closed ≡ true
  unfolding close_nats_broker
  close-closed b w =
      if_cases (λ (r : NatsBroker × W). r.0.closed ≡ true) b.closed (λ gone. gone) (λ alive. refl)

  stays_closed :
      (steps : List (NatsStep W)) (s : NatsBroker × W)
      → s.0.closed ≡ true
      → (nats_run steps s).0 ≡ s.0
  stays_closed [] s gone = refl
  stays_closed (publishes subject bytes ∷ steps) s gone = stays_closed steps _ gone
  stays_closed (subscribes subject handler ∷ steps) s gone =
      ap (λ (r : (NatsBroker × W) × (NatsError ⊎ ℕ)). (nats_run steps r.0).0)
        (subscribe_closed subject handler s.0 s.1 gone)
      ∙ stays_closed steps s gone
  stays_closed (closes ∷ steps) s gone =
      ap (λ (r : NatsBroker × W). (nats_run steps r).0) (close_closed s.0 s.1 gone)
      ∙ stays_closed steps s gone
  stays_closed (elsewhere change ∷ steps) s gone = stays_closed steps (s.0, change s.1) gone

  -- Once a broker is closed, whatever happens afterwards, a publish and a subscription fail with
  -- ErrBrokerClosed without a call of the client library, a further Close does nothing, and the
  -- broker is not ready, whatever its connection says.
  pub nats_closed_for_good :
      (s : NatsBroker × W) (steps : List (NatsStep W)) (subject bytes : Str)
      (handler : Str → Str → W → W)
      → let after = nats_run steps (close_nats_broker js s.0 s.1) in
        (publish js subject bytes after.0 after.1 ≡ (after.1, some broker_closed))
        × (subscribe js subject handler after.0 after.1 ≡ (after, inl broker_closed))
        × (close_nats_broker js after.0 after.1 ≡ after)
        × (ready js after.0 after.1 ≡ false)
  unfolding publish ready
  nats_closed_for_good s steps subject bytes handler =
      let at_first = close-closed s.0 s.1 in
      let after = nats_run steps (close_nats_broker js s.0 s.1) in
      let gone : after.0.closed ≡ true =
        ap (λ (b : NatsBroker). b.closed) (stays_closed steps _ at_first) ∙ at_first in
      (
        rw gone refl,
        subscribe_closed subject handler after.0 after.1 gone,
        close_closed after.0 after.1 gone,
        rw gone refl,
      )

  close_open :
      (b : NatsBroker) (w : W)
      → b.closed ≡ false
      → close_nats_broker js b w
        ≡ (record b { closed = true; subs = [] }, js.close_connection (stop_each js b.subs w))
  unfolding close_nats_broker
  close_open b w alive = rw alive refl

  start_consuming-subs :
      (handler : Str → Str → W → W) (b : NatsBroker) (name : Str) (created : W × Option Str)
      → let r = start_consuming js handler b name created in
        (r.0.0.subs ≡ b.subs ++ contexts r.1) × (r.0.0.closed ≡ b.closed)
  unfolding start_consuming
  start_consuming-subs handler b name (w, some message) = (sym (append-nil b.subs), refl)
  start_consuming-subs handler b name (w, none) =
      keep_context-subs b (js.consume name (on_delivery js handler) w).1

  subscribe-subs :
      (subject : Str) (handler : Str → Str → W → W) (b : NatsBroker) (w : W)
      → let r = subscribe js subject handler b w in
        (r.0.0.subs ≡ b.subs ++ contexts r.1) × (r.0.0.closed ≡ b.closed)
  unfolding subscribe
  subscribe-subs subject handler b w =
      if_cases
        (λ (r : (NatsBroker × W) × (NatsError ⊎ ℕ)).
          (r.0.0.subs ≡ b.subs ++ contexts r.1) × (r.0.0.closed ≡ b.closed))
        b.closed (λ gone. (sym (append-nil b.subs), refl))
        (λ alive. start_consuming-subs handler _ _ _)

  -- As long as a broker is open, it keeps what its subscriptions returned.
  open-subs :
      (steps : List (NatsStep W)) (s : NatsBroker × W)
      → (nats_run steps s).0.closed ≡ false
      → (nats_run steps s).0.subs ≡ s.0.subs ++ started steps s
  open-subs [] s alive = sym (append-nil s.0.subs)
  open-subs (publishes subject bytes ∷ steps) s alive = open-subs steps _ alive
  open-subs (subscribes subject handler ∷ steps) s alive =
      let r = subscribe js subject handler s.0 s.1 in
      open-subs steps r.0 alive
      ∙ ap (λ (subs : List ℕ). subs ++ started steps r.0) (subscribe-subs subject handler s.0 s.1).0
      ∙ append_assoc s.0.subs (contexts r.1) (started steps r.0)
  open-subs (closes ∷ steps) s alive =
      let gone = close-closed s.0 s.1 in
      let shut : (nats_run steps (close_nats_broker js s.0 s.1)).0.closed ≡ true =
        ap (λ (b : NatsBroker). b.closed) (stays_closed steps _ gone) ∙ gone in
      absurd cc
  open-subs (elsewhere change ∷ steps) s alive = open-subs steps _ alive

  -- Closing a broker that is open stops the consumer of every subscription that succeeded since it was
  -- made, in their order, and then closes the connection.
  pub close-stops :
      (steps : List (NatsStep W)) (s : NatsBroker × W)
      → s.0.subs ≡ []
      → (nats_run steps s).0.closed ≡ false
      → (close_nats_broker js (nats_run steps s).0 (nats_run steps s).1).1
        ≡ js.close_connection (stop_each js (started steps s) (nats_run steps s).1)
  close-stops steps s fresh alive =
      let after = nats_run steps s in
      ap (λ (r : NatsBroker × W). r.1) (close_open after.0 after.1 alive)
      ∙ ap (λ (subs : List ℕ). js.close_connection (stop_each js subs after.1))
          (open-subs steps s alive ∙ ap (λ (subs : List ℕ). subs ++ started steps s) fresh)
