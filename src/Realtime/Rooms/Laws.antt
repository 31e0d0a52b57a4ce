-- ===== src/Realtime/Rooms/Laws.antt =====
-- What Unregister, Join and Leave do to every membership, and to nothing else.
use websocket.Common.{
  ◌≡◌, true, false, ◌&&◌, [], none, some, arith, is_some, if◌then◌else◌, Option-cases, inl, inr,
}
use websocket.Text.{Str, ◌==◌, ==_iff}
use websocket.Dict.{lookup, insert, lookup-nil, lookup-insert, lookup-delete}
use websocket.Realtime.Rooms.{ClientRef, Hub, member, joined, leave_all, add_member}
use websocket.Realtime.Rooms.Membership.{member-drop_members}

module _ (h : Hub) where
  pub member-add_member :
      (c : ClientRef) (room r k : Str)
      → member (add_member h c room).rooms r k
        ≡ (if room == r && c.connection_id == k then some c else member h.rooms r k)
  unfolding member add_member
  member-add_member c room r k = elim (Option-cases (lookup room h.rooms)) [
    | inl missing ↦ ground (
      arith,
      ==_iff room r,
      ==_iff c.connection_id k,
      lookup-insert room r (insert c.connection_id c []) h.rooms,
      lookup-insert c.connection_id k c [],
      lookup-nil {0} {V = ClientRef} k,
    )
    | inr (m, found) ↦ ground (
      arith,
      ==_iff room r,
      ==_iff c.connection_id k,
      lookup-insert room r (insert c.connection_id c m) h.rooms,
      lookup-insert c.connection_id k c m,
    )
  ]

  pub joined-add_member :
      (c : ClientRef) (room k r : Str)
      → joined (add_member h c room).client_rooms k r
        ≡ (if c.connection_id == k && room == r then true else joined h.client_rooms k r)
  unfolding joined add_member
  joined-add_member c room k r = elim (Option-cases (lookup c.connection_id h.client_rooms)) [
    | inl missing ↦ ground (
      arith,
      ==_iff room r,
      ==_iff c.connection_id k,
      lookup-insert c.connection_id k (insert room tt []) h.client_rooms,
      lookup-insert {0} room r tt [],
      lookup-nil {0} {V = Unit {0}} r,
    )
    | inr (m, found) ↦ ground (
      arith,
      ==_iff room r,
      ==_iff c.connection_id k,
      lookup-insert c.connection_id k (insert room tt m) h.client_rooms,
      lookup-insert room r tt m,
    )
  ]

  pub joined-leave_all :
      (conn k r : Str)
      → joined (leave_all h conn).client_rooms k r
        ≡ (if conn == k then false else joined h.client_rooms k r)
  unfolding joined leave_all
  joined-leave_all conn k r = ground (arith, ==_iff conn k, lookup-delete conn k h.client_rooms)

  -- The set of h.clientRooms names every room that holds the connection.
  pub member-leave_all :
      (conn r k : Str)
      → is_some (member h.rooms r conn) ≡ joined h.client_rooms conn r
      → member (leave_all h conn).rooms r k ≡ (if conn == k then none else member h.rooms r k)
  unfolding joined leave_all
  member-leave_all conn r k agree = elim (Option-cases (lookup conn h.client_rooms)) [
    | inl missing ↦ ground (arith, ==_iff conn k)
    | inr (set, found) ↦ ground (arith, ==_iff conn k, member-drop_members conn set h.rooms r k)
  ]
