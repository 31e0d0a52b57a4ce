-- ===== src/Realtime/Moves/Settings.antt =====
-- No operation of a running process changes the broker or the node identifier of its hub: SetBroker
-- is called before the server starts.
use websocket.Common.{ℕ, ◌≡◌, refl, ◌∙◌, Option-cases, Bool-cases, inl, inr, arith, if_cases}
use websocket.Text.{Str}
use websocket.Realtime.Rooms.{
  ClientRef, Hub, Authorizer, install, join, leave, unregister, leave_all, add_member,
}
use websocket.Realtime.Node.{Node, set_hub}
use websocket.Realtime.Client.{close, new_client}
use websocket.Realtime.Hub.{register, replaced_by}
use websocket.Realtime.Loop.{register_session}
use websocket.Realtime.Moves.{
  Move, tallies, enqueues, dequeues, limits, phases, closes, joins, leaves, makes, publishes,
  creates, registers, Moves, done, more,
}
use websocket.Realtime.Moves.Close.{close_effect, close_again}

abbrev pub SameSettings : Hub → Hub → Type 0
SameSettings h k = (k.node_id ≡ h.node_id) × (k.broker ≡ h.broker)

SameSettings-trans : (h k l : Hub) → SameSettings h k → SameSettings k l → SameSettings h l
SameSettings-trans h k l (p, q) (r, s) = (r ∙ p, s ∙ q)

unregister-SameSettings : (h : Hub) (c : ClientRef) → SameSettings h (unregister h c).0
unfolding unregister leave_all
unregister-SameSettings h c = ground arith

join-SameSettings :
    (auth : Authorizer) (h : Hub) (c : ClientRef) (room : Str)
    → SameSettings h (join auth h c room).0
unfolding join add_member
join-SameSettings auth h c room = ground arith

close-SameSettings : (a : ℕ) (reason : Str) (n : Node) → SameSettings n.hub (close a reason n).hub
close-SameSettings a reason n = elim (Bool-cases (n.client a).closed) [
  | inl gone ↦ rw (close_again a reason n gone) (refl, refl)
  | inr alive ↦ rw (close_effect a reason n alive).hub (
      if_cases (SameSettings n.hub) (n.client a).has_on_close
        (λ set. unregister-SameSettings n.hub (n.client a).self) (λ unset. (refl, refl)))
]

register-SameSettings : (s : ClientRef) (n : Node) → SameSettings n.hub (register s n).hub
unfolding register install
register-SameSettings s n = elim (Option-cases (replaced_by n.hub s)) [
  | inl nobody ↦ rw (nobody, register) (refl, refl)
  | inr (old, found) ↦
      rw (found, register) (close-SameSettings old.address _ (set_hub (install n.hub s) n))
]

Move-SameSettings : {n m : Node} → Move n m → SameSettings n.hub m.hub
unfolding new_client leave register_session
Move-SameSettings (tallies n m same) = (refl, refl)
Move-SameSettings (enqueues n a frame alive room) = (refl, refl)
Move-SameSettings (dequeues n a frame rest e) = (refl, refl)
Move-SameSettings (limits n a limiter) = (refl, refl)
Move-SameSettings (phases n a reading alive) = (refl, refl)
Move-SameSettings (closes n a reason) = close-SameSettings a reason n
Move-SameSettings (joins n auth a room below) = join-SameSettings auth n.hub (n.client a).self room
Move-SameSettings (leaves n a room) = (refl, refl)
Move-SameSettings (makes n) = (refl, refl)
Move-SameSettings (publishes n ps) = (refl, refl)
Move-SameSettings (creates n o callback) = (refl, refl)
Move-SameSettings (registers n a alive callback) = register-SameSettings _ _

pub Moves-SameSettings : {n m : Node} → Moves n m → SameSettings n.hub m.hub
Moves-SameSettings {n} done = (refl, refl)
Moves-SameSettings {n} (more {m} {k} r s) =
    SameSettings-trans n.hub m.hub k.hub (Moves-SameSettings r) (Move-SameSettings s)
