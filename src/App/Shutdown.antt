-- ===== src/App/Shutdown.antt =====
-- go-server/internal/app/server.go: when a server accepts sessions, and what its shutdown leaves.
use websocket.Common.{
  ◌≡◌, ◌≢◌, ap, Bool, true, false, none, some, Option, List, ℕ, arith, if◌then◌else◌, Bool-cases,
  inl, inr, refl,
}
use websocket.Text.{Str, text}
use websocket.Broker.Event.{EventCodec}
use websocket.Http.{Request, ParsedUrl, accepted, serve_http}
use websocket.Realtime.Message.{Codec}
use websocket.Realtime.Rooms.{Authorizer, find_client, snapshot}
use websocket.Realtime.Node.{Node}
use websocket.Realtime.Delivery.{shut, has_address}
use websocket.Realtime.Registry.{close_all_lem}
use websocket.Realtime.Moves.{Moves}
use websocket.Realtime.Moves.Reached.{close_all-registered}
use websocket.Config.{Config}
use websocket.App.{
  Server, Stage, serving, draining, ServerStep, server_run, end_drain,
  new_server_with_authenticator,
}
use websocket.App.Invariant.{
  is_serving, refusing_rejects, server_run-IsRefusing, server_run-IsGuarded, server_run_keeps,
  new_server_with_authenticator_lem,
}

is_serving-serving : (stage : Stage) → is_serving stage ≡ true → stage ≡ serving
is_serving-serving stage h = ground arith

module _ (codec : Codec) (events : EventCodec) (publish : Str → Str → Node → Node × Bool)
    (auth : Authorizer) (parse : Str → Option ParsedUrl) where
  -- A server accepts a session only while it serves: not before Serve has subscribed to the broker,
  -- and not after its context is done, whatever happened before and whoever authenticates.
  pub accepted-serving :
      (c : Config) (authenticator : Str → Option Str) (connected : Option Bool) (start : Server)
      (xs : List (ServerStep codec events publish auth parse)) (r : Request) (conn user : Str)
      → new_server_with_authenticator c authenticator connected ≡ some start
      → (serve_http parse r (server_run codec events publish auth parse start xs).boundary).1
        ≡ accepted conn user
      → (server_run codec events publish auth parse start xs).stage ≡ serving
  accepted-serving c authenticator connected start xs r conn user made taken =
      let s = server_run codec events publish auth parse start xs in
      let guarded =
        server_run-IsGuarded codec events publish auth parse start xs
          (new_server_with_authenticator_lem c authenticator connected start made).0 in
      elim (Bool-cases (is_serving s.stage)) [
        | inl on ↦ is_serving-serving s.stage on
        | inr off ↦ absurd (refusing_rejects parse r s.boundary conn user (guarded off) taken)
      ]

  -- When the drain period of a server passes, exactly the sessions of its registry are closed, so that
  -- every session that Handle has registered is closed, and the registry is left empty; and whatever
  -- happens afterwards, no request is accepted, if the broker's Publish touches the process only
  -- through operations of its package.
  pub end_drain_lem :
      (relays : (subject bytes : Str) (n : Node) → Moves n (publish subject bytes n).0) (c : Config)
      (authenticator : Str → Option Str) (connected : Option Bool) (start : Server)
      (xs : List (ServerStep codec events publish auth parse))
      → new_server_with_authenticator c authenticator connected ≡ some start
      → (server_run codec events publish auth parse start xs).stage ≡ draining
      → let s = server_run codec events publish auth parse start xs in
        ((b : ℕ)
          → (end_drain s).node.client b ≡ (
              if has_address b (snapshot s.node.hub)
              then shut (s.node.client b)
              else s.node.client b))
        × ((b : ℕ)
            → (s.node.client b).registered ≡ true
            → ((end_drain s).node.client b).closed ≡ true)
        × ((user : Str) → find_client (end_drain s).node.hub user ≡ none)
        × ((ys : List (ServerStep codec events publish auth parse)) (r : Request) (conn user : Str)
            → (serve_http parse r
                (server_run codec events publish auth parse (end_drain s) ys).boundary).1
              ≢ accepted conn user)
  unfolding end_drain
  end_drain_lem relays c authenticator connected start xs made here =
      let s = server_run codec events publish auth parse start xs in
      let (guarded, sound_at_first, complete_at_first) =
        new_server_with_authenticator_lem c authenticator connected start made in
      let (sound, complete) =
        server_run_keeps codec events publish auth parse relays start xs sound_at_first
          complete_at_first in
      let (closed, emptied) = close_all_lem (text "server_shutdown") s.node sound in
      let down : s.boundary.health.ready_flag ≡ false =
        server_run-IsGuarded codec events publish auth parse start xs guarded
          (ap is_serving here) in
      (
        closed,
        λ b known. close_all-registered (text "server_shutdown") s.node b sound complete known,
        emptied,
        λ ys r conn user.
            refusing_rejects parse r _ conn user
              (server_run-IsRefusing codec events publish auth parse (end_drain s) ys
                (refl, down)).1,
      )
