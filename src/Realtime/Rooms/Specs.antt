-- ===== src/Realtime/Rooms/Specs.antt =====
-- What Unregister, Join, Leave and AuthorizeBroadcast promise, on every branch.
use websocket.Common.{
  ◌≡◌, refl, ◌↔◌, ◌⊎◌, true, ◌&&◌, none, some, Option-cases, Bool-cases, inl, inr, arith, is_some,
  if◌then◌else◌, length,
}
use websocket.Text.{Str, ◌==◌, ==_iff}
use websocket.Dict.{StrSet, lookup, lookup-delete}
use websocket.Realtime.Rooms.{
  ClientRef, Hub, HubError, denied, room_limit, Authorizer, member, joined, join, leave, add_member,
  at_limit, is_active, unregister, authorize_broadcast,
}
use websocket.Realtime.Rooms.Membership.{member-drop_member}
use websocket.Realtime.Rooms.Laws.{member-add_member, member-leave_all}
use websocket.Realtime.Rooms.Invariant.{IsConsistent, leave_all_rest}

-- In a consistent hub, Unregister takes the connection out of every room, whether or not its session
-- is the active one, and changes no membership of another connection. It reports true exactly for
-- the active session of its user; then that registration is gone, and otherwise the registry is
-- left as it was.
pub unregister_lem :
    (h : Hub) (c : ClientRef)
    → IsConsistent h
    → ((room conn : Str)
        → member (unregister h c).0.rooms room conn
          ≡ (if c.connection_id == conn then none else member h.rooms room conn))
      × ((unregister h c).1 ≡ is_active h c)
      × ((user : Str)
          → lookup user (unregister h c).0.clients
            ≡ (if is_active h c && c.user_id == user then none else lookup user h.clients))
unfolding unregister is_active
unregister_lem h c v =
    let same = (leave_all_rest h c.connection_id).0 in
    (
      λ room conn.
          ground
            (arith, member-leave_all h c.connection_id room conn (v.agree room c.connection_id)),
      ground (arith, same),
      λ user. ground (arith, same, lookup-delete c.user_id user h.clients),
    )

-- A join that succeeds makes the session a member of the room under its connection, and changes no
-- other membership and no registration.
pub join-ok :
    (auth : Authorizer) (h : Hub) (c : ClientRef) (room : Str)
    → (join auth h c room).1 ≡ none
    → ((r conn : Str)
        → member (join auth h c room).0.rooms r conn
          ≡ (if room == r && c.connection_id == conn then some c else member h.rooms r conn))
      × ((join auth h c room).0.clients ≡ h.clients)
unfolding join
join-ok auth h c room ok = elim (Option-cases (auth.authorize_join c.user_id room)) [
  | inr (message, refused) ↦ absurd (ground arith)
  | inl allowed ↦ elim (Bool-cases (at_limit h c.connection_id room)) [
    | inl full ↦ absurd (ground arith)
    | inr below ↦
        rw (allowed, join)
          (rw below (λ r conn. member-add_member h c room r conn, unfold add_member in refl))
  ]
]

-- Why a join was refused: by the authorizer, or by the limit, which the connection has reached
-- exactly, for a room that it is not in.
abbrev pub Refusal : Authorizer → Hub → ClientRef → Str → HubError → Type 0
Refusal auth h c room e =
    ((message : Str) × (auth.authorize_join c.user_id room ≡ some message) × (e ≡ denied message))
    ⊎ ((set : StrSet) × (lookup c.connection_id h.client_rooms ≡ some set)
        × (length set ≡ h.max_rooms_per_client)
        × (member h.rooms room c.connection_id ≡ none)
        × (e ≡ room_limit))

limit_reached :
    (h : Hub) (c : ClientRef) (room : Str)
    → IsConsistent h
    → at_limit h c.connection_id room ≡ true
    → (set : StrSet) × (lookup c.connection_id h.client_rooms ≡ some set)
      × (length set ≡ h.max_rooms_per_client)
      × (member h.rooms room c.connection_id ≡ none)
unfolding at_limit joined
limit_reached h c room v full = elim (Option-cases (lookup c.connection_id h.client_rooms)) [
  | inl missing ↦ absurd (ground arith)
  | inr (set, found) ↦ (
    set,
    found,
    ground (arith, v.bounded c.connection_id set),
    ground (arith, v.agree room c.connection_id),
  )
]

-- In a consistent hub, a join that fails leaves the whole state as it was, and its error says which
-- of the two reasons it had.
pub join-refused :
    (auth : Authorizer) (h : Hub) (c : ClientRef) (room : Str) (e : HubError)
    → IsConsistent h
    → (join auth h c room).1 ≡ some e
    → ((join auth h c room).0 ≡ h) × Refusal auth h c room e
unfolding join
join-refused auth h c room e v bad = elim (Option-cases (auth.authorize_join c.user_id room)) [
  | inr (message, refused) ↦ (rw (refused, join), inl (message, refused, ground arith))
  | inl allowed ↦ elim (Bool-cases (at_limit h c.connection_id room)) [
    | inl full ↦
        let (set, found, reached, absent) = limit_reached h c room v full in
        (rw (allowed, join) (rw full), inr (set, found, reached, absent, ground arith))
    | inr below ↦ absurd (ground arith)
  ]
]

-- In a consistent hub, a session that is a member of the room and may join it is not refused, also
-- at its limit.
pub join-again :
    (auth : Authorizer) (h : Hub) (c d : ClientRef) (room : Str)
    → IsConsistent h
    → auth.authorize_join c.user_id room ≡ none
    → member h.rooms room c.connection_id ≡ some d
    → (join auth h c room).1 ≡ none
join-again auth h c d room v allowed here = elim (Option-cases (join auth h c room).1) [
  | inl ok ↦ ok
  | inr (e, bad) ↦ absurd (ground (arith, (join-refused auth h c room e v bad).1))
]

-- Leave takes the connection out of that room, and changes no other membership and no registration.
pub leave_lem :
    (h : Hub) (c : ClientRef) (room : Str)
    → ((r conn : Str)
        → member (leave h c room).rooms r conn
          ≡ (if room == r && c.connection_id == conn then none else member h.rooms r conn))
      × ((leave h c room).clients ≡ h.clients)
unfolding leave
leave_lem h c room = (λ r conn. member-drop_member c.connection_id room h.rooms r conn, refl)

-- If a session that is not in the room joins it with success and leaves it again, every membership
-- is as it was.
pub leave-join :
    (auth : Authorizer) (h : Hub) (c : ClientRef) (room : Str)
    → (join auth h c room).1 ≡ none
    → member h.rooms room c.connection_id ≡ none
    → (r conn : Str)
    → member (leave (join auth h c room).0 c room).rooms r conn ≡ member h.rooms r conn
leave-join auth h c room ok absent r conn = ground (
  arith,
  (leave_lem (join auth h c room).0 c room).0 r conn,
  (join-ok auth h c room ok).0 r conn,
  ==_iff room r,
  ==_iff c.connection_id conn,
)

-- A session may publish to a room exactly if it is a member or the authorizer permits it.
pub authorize_broadcast_iff :
    (auth : Authorizer) (h : Hub) (c : ClientRef) (room : Str)
    → (authorize_broadcast auth h c room ≡ none) ↔ (
        (is_some (member h.rooms room c.connection_id) ≡ true)
        ⊎ (auth.authorize_publish c.user_id room ≡ none))
unfolding authorize_broadcast
authorize_broadcast_iff auth h c room = ground arith
