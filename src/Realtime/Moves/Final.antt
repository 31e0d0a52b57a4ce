-- ===== src/Realtime/Moves/Final.antt =====
-- What no step of the process takes back: a session that has been created keeps its identity, and one
-- that is closed stays closed.
use websocket.Common.{
  ℕ, ◌≤◌, ◌<◌, ◌≡◌, refl, ap, ◌∙◌, true, Bool, List, [], ◌∷◌, arith, nat_eq_iff, Bool-cases,
  Option-cases, inl, inr,
}
use websocket.Text.{Str}
use websocket.Broker.Event.{EventCodec}
use websocket.Realtime.Message.{Codec}
use websocket.Realtime.Rooms.{Authorizer, ClientRef, install}
use websocket.Realtime.Node.{Node, Client, set_client, set_hub}
use websocket.Realtime.Client.{close, new_client}
use websocket.Realtime.Hub.{register, replaced_by}
use websocket.Realtime.Loop.{register_session, Step, step, run}
use websocket.Realtime.Delivery.{close-client}
use websocket.Realtime.Moves.{
  Move, tallies, enqueues, dequeues, limits, phases, closes, joins, leaves, makes, publishes,
  creates, registers, Moves, done, more,
}
use websocket.Realtime.Moves.Close.{close_effect, close_again}
use websocket.Realtime.Moves.Loop.{Moves-step}
use websocket.Realtime.Moves.Sound.{IsSound}
use websocket.Realtime.Moves.Run.{step-IsSound}

abbrev pub Persists : Node → Node → Type 0
Persists n m =
    (n.next ≤ m.next)
    × ((a : ℕ)
        → a < n.next
        → ((m.client a).self ≡ (n.client a).self)
          × ((n.client a).closed ≡ true → (m.client a).closed ≡ true))

Persists-refl : (n : Node) → Persists n n
Persists-refl n = (omega arith, λ a h. (refl, λ gone. gone))

Persists-trans : (n m k : Node) → Persists n m → Persists m k → Persists n k
Persists-trans n m k (le, p) (le', q) = (
  omega arith,
  λ a h.
      let (self, gone) = p a h in
      let (self', gone') = q a (omega arith) in (self' ∙ self, λ e. gone' (gone e)),
)

set_client-Persists :
    (n : Node) (a : ℕ) (c : Client)
    → c.self ≡ (n.client a).self
    → c.closed ≡ (n.client a).closed
    → Persists n (set_client a c n)
set_client-Persists n a c self closed = (omega arith, λ b h. (ground arith, λ e. ground arith))

close_next : (a : ℕ) (reason : Str) (n : Node) → (close a reason n).next ≡ n.next
close_next a reason n = elim (Bool-cases (n.client a).closed) [
  | inl gone ↦ ap (λ (m : Node). m.next) (close_again a reason n gone)
  | inr alive ↦ (close_effect a reason n alive).next
]

close-Persists : (a : ℕ) (reason : Str) (n : Node) → Persists n (close a reason n)
close-Persists a reason n = (
  omega (arith, close_next a reason n),
  λ b h. (
    ground (arith, close-client a reason n b, nat_eq_iff b a),
    λ e. ground (arith, close-client a reason n b, nat_eq_iff b a),
  ),
)

register-Persists : (s : ClientRef) (n : Node) → Persists n (register s n)
unfolding register
register-Persists s n = elim (Option-cases (replaced_by n.hub s)) [
  | inl nobody ↦ rw (nobody, register) (Persists-refl n)
  | inr (old, found) ↦
      rw (found, register) (close-Persists old.address _ (set_hub (install n.hub s) n))
]

Move-Persists : {n m : Node} → Move n m → Persists n m
unfolding new_client register_session
Move-Persists (tallies n m same) = Persists-refl n
Move-Persists (enqueues n a frame alive room) = set_client-Persists n a _ refl refl
Move-Persists (dequeues n a frame rest e) = set_client-Persists n a _ refl refl
Move-Persists (limits n a limiter) = set_client-Persists n a _ refl refl
Move-Persists (phases n a reading alive) = set_client-Persists n a _ refl refl
Move-Persists (closes n a reason) = close-Persists a reason n
Move-Persists (joins n auth a room below) = Persists-refl n
Move-Persists (leaves n a room) = Persists-refl n
Move-Persists (makes n) = Persists-refl n
Move-Persists (publishes n ps) = Persists-refl n
Move-Persists (creates n o callback) = (omega arith, λ b h. (ground arith, λ e. ground arith))
Move-Persists (registers n a alive callback) =
    Persists-trans n (set_client a (record (n.client a) { registered = true }) n)
      (register_session a n) (set_client-Persists n a _ refl refl)
      (register-Persists (n.client a).self _)

Moves-Persists : {n m : Node} → Moves n m → Persists n m
Moves-Persists {n} done = Persists-refl n
Moves-Persists {n} (more {m} {k} r s) = Persists-trans n m k (Moves-Persists r) (Move-Persists s)

module _ (codec : Codec) (events : EventCodec) (publish : Str → Str → Node → Node × Bool)
    (auth : Authorizer)
    (relays : (subject bytes : Str) (n : Node) → Moves n (publish subject bytes n).0) where
  -- From a node that keeps its invariant, along any schedule of steps, the next address does not
  -- go back, every session that exists keeps its connection and its user, and a closed one stays
  -- closed, if the broker's Publish touches the node only through operations of this package.
  pub run-Persists :
      (n : Node) (ss : List (Step codec events publish auth))
      → IsSound n
      → Persists n (run codec events publish auth n ss)
  unfolding run
  run-Persists n [] v = Persists-refl n
  run-Persists n (s ∷ ss) v =
      let n' = step codec events publish auth n s in
      Persists-trans n n' (run codec events publish auth n' ss)
        (Moves-Persists (Moves-step codec events publish auth relays n s v.readers v.callbacks))
        (run-Persists n' ss (step-IsSound codec events publish auth relays n s v))
