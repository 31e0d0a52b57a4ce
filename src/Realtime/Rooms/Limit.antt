-- ===== src/Realtime/Rooms/Limit.antt =====
-- The limit on the rooms of one connection: a join keeps it, and leaving a room lowers the number.
use websocket.Common.{ℕ, ◌≡◌, ◌≤◌, ◌<◌, false, [], some, arith, Option-cases, inl, inr, length}
use websocket.Text.{Str, ==_iff}
use websocket.Dict.{
  Dict, StrSet, lookup, insert, delete, lookup-nil, lookup-insert, lookup-delete, length-insert,
  length-delete-le,
}
use websocket.Realtime.Rooms.{ClientRef, Hub, joined, drop_room, add_member, at_limit}

-- Joining keeps the limit, since at_limit refuses a new room to a connection that has reached it.
pub add_member-bounded :
    (h : Hub) (c : ClientRef) (room k : Str) (set : StrSet)
    → at_limit h c.connection_id room ≡ false
    → ((s : StrSet)
        → lookup k h.client_rooms ≡ some s
        → 0 < h.max_rooms_per_client
        → length s ≤ h.max_rooms_per_client)
    → lookup k (add_member h c room).client_rooms ≡ some set
    → 0 < h.max_rooms_per_client
    → length set ≤ h.max_rooms_per_client
unfolding at_limit add_member
add_member-bounded h c room k set below old e p =
    elim (Option-cases (lookup c.connection_id h.client_rooms)) [
      | inl missing ↦ ground (
        arith,
        ==_iff c.connection_id k,
        lookup-insert c.connection_id k (insert room tt []) h.client_rooms,
        length-insert {0} room tt [],
        lookup-nil {0} {V = Unit {0}} room,
        old set,
      )
      | inr (joined, found) ↦ ground (
        arith,
        ==_iff c.connection_id k,
        lookup-insert c.connection_id k (insert room tt joined) h.client_rooms,
        length-insert {0} room tt joined,
        old set,
        old joined,
      )
    ]

pub drop_room-bounded :
    (conn room : Str) (sets : Dict StrSet) (max : ℕ) (k : Str) (set : StrSet)
    → ((s : StrSet) → lookup k sets ≡ some s → length s ≤ max)
    → lookup k (drop_room conn room sets) ≡ some set
    → length set ≤ max
unfolding drop_room
drop_room-bounded conn room sets max k set old e = elim (Option-cases (lookup conn sets)) [
  | inl missing ↦ old set (rw (missing, drop_room) at e)
  | inr (m, found) ↦ ground (
    arith,
    ==_iff conn k,
    lookup-delete conn k sets,
    lookup-insert conn k (delete room m) sets,
    length-delete-le {0} room m,
    old set,
    old m,
  )
]
