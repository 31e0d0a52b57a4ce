-- ===== src/Realtime/Rooms/Changes.antt =====
-- The steps of the hub's own state, in any order.
use websocket.Common.{ℕ, [], List, ◌∷◌, Bool}
use websocket.Text.{Str}
use websocket.Realtime.Rooms.{
  ClientRef, Hub, Authorizer, unregister, join, leave, install, set_broker, new_hub,
}
use websocket.Realtime.Rooms.Invariant.{
  set_broker-IsConsistent, IsConsistent, new_hub-IsConsistent, unregister-IsConsistent,
  install-IsConsistent, join-IsConsistent, leave-IsConsistent,
}

-- A step of the hub's own state, and any sequence of such steps from an empty hub.
pub data Change : Type 0 where
  installs unregisters : ClientRef → Change
  joins leaves : ClientRef → Str → Change
  sets_broker : Bool → Str → Change

unfoldable pub change : Authorizer → Hub → Change → Hub
change auth h (installs c) = install h c
change auth h (unregisters c) = (unregister h c).0
change auth h (joins c room) = (join auth h c room).0
change auth h (leaves c room) = leave h c room
change auth h (sets_broker set node) = set_broker h set node

unfoldable pub changes : Authorizer → Hub → List Change → Hub
unfolding change
changes auth h [] = h
changes auth h (x ∷ xs) = changes auth (change auth h x) xs

pub change-IsConsistent :
    (auth : Authorizer) (h : Hub) (x : Change) → IsConsistent h → IsConsistent (change auth h x)
unfolding change set_broker
change-IsConsistent auth h (installs c) v = install-IsConsistent h c v
change-IsConsistent auth h (unregisters c) v = unregister-IsConsistent h c v
change-IsConsistent auth h (joins c room) v = join-IsConsistent auth h c room v
change-IsConsistent auth h (leaves c room) v = leave-IsConsistent h c room v
change-IsConsistent auth h (sets_broker set node) v = set_broker-IsConsistent h set node v

changes-IsConsistent :
    (auth : Authorizer) (h : Hub) (xs : List Change)
    → IsConsistent h
    → IsConsistent (changes auth h xs)
unfolding changes
changes-IsConsistent auth h [] v = v
changes-IsConsistent auth h (x ∷ xs) v =
    changes-IsConsistent auth (change auth h x) xs (change-IsConsistent auth h x v)

-- After any sequence of registrations, unregistrations, joins, leaves and settings of the broker,
-- in any order and by any sessions, the state of a new hub is consistent.
pub changes-new_hub-IsConsistent :
    (auth : Authorizer) (max : ℕ) (xs : List Change) → IsConsistent (changes auth (new_hub max) xs)
changes-new_hub-IsConsistent auth max xs =
    changes-IsConsistent auth (new_hub max) xs (new_hub-IsConsistent max)
