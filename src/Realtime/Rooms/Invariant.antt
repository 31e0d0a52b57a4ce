-- ===== src/Realtime/Rooms/Invariant.antt =====
-- The well-formedness of the hub's state, and that every operation on it preserves it.
use websocket.Common.{
  Bool, ℕ, ◌≡◌, refl, ◌≤◌, ◌<◌, false, none, some, arith, is_some, if◌then◌else◌, Option-cases,
  Bool-cases, inl, inr, length,
}
use websocket.Text.{Str, ◌==◌, ==_iff}
use websocket.Dict.{
  KeysDistinct, KeysDistinct-insert, KeysDistinct-delete, Dict, StrSet, lookup, insert, delete,
  lookup-insert, lookup-delete, insert-ne-nil,
}
use websocket.Realtime.Rooms.{
  set_broker, or_empty, ClientRef, Hub, Authorizer, member, joined, leave_all, add_member, at_limit,
  is_active, unregister, join, leave, install, new_hub,
}
use websocket.Realtime.Rooms.Membership.{
  AllDistinct, AllDistinct-insert, AllDistinct-drop_member, AllDistinct-drop_members, NoEmpty,
  NoEmpty-insert, NoEmpty-drop_member, NoEmpty-drop_members, NoEmpty-drop_room, member-drop_member,
  joined-drop_room,
}
use websocket.Realtime.Rooms.Laws.{
  member-add_member, joined-add_member, joined-leave_all, member-leave_all,
}
use websocket.Realtime.Rooms.Limit.{add_member-bounded, drop_room-bounded}

pub record IsConsistent (h : Hub) : Type 0 where
  -- both room indexes record the same memberships
  pub agree :
      (room conn : Str) → is_some (member h.rooms room conn) ≡ joined h.client_rooms conn room
  -- no room and no set of rooms is kept empty
  pub rooms_full : NoEmpty h.rooms
  pub sets_full : NoEmpty h.client_rooms
  -- the limit on memberships, where there is one
  pub bounded :
      (conn : Str) (set : StrSet)
      → lookup conn h.client_rooms ≡ some set
      → 0 < h.max_rooms_per_client
      → length set ≤ h.max_rooms_per_client
  -- no key stands twice
  pub rooms_distinct : AllDistinct h.rooms
  pub clients_distinct : KeysDistinct h.clients
  -- clients stand under their own identifiers
  pub rooms_keyed :
      (room conn : Str) (c : ClientRef) → member h.rooms room conn ≡ some c → c.connection_id ≡ conn
  pub clients_keyed :
      (user : Str) (c : ClientRef) → lookup user h.clients ≡ some c → c.user_id ≡ user

pub new_hub-IsConsistent : (max : ℕ) → IsConsistent (new_hub max)
unfolding new_hub member joined lookup
new_hub-IsConsistent max = record {
  agree = λ room conn. refl;
  rooms_full = λ k inner e. cc;
  sets_full = λ k inner e. cc;
  bounded = λ conn set e p. cc;
  rooms_distinct = λ k inner e. absurd (ground arith);
  clients_distinct = tt;
  rooms_keyed = λ room conn c e. cc;
  clients_keyed = λ user c e. cc;
}

module _ (h : Hub) (conn : Str) where
  leave_all-rooms_full : NoEmpty h.rooms → NoEmpty (leave_all h conn).rooms
  unfolding leave_all
  leave_all-rooms_full full = elim (Option-cases (lookup conn h.client_rooms)) [
    | inl missing ↦ rw (missing, leave_all) full
    | inr (set, found) ↦ rw (found, leave_all) (NoEmpty-drop_members conn set h.rooms full)
  ]

  leave_all-rooms_distinct : AllDistinct h.rooms → AllDistinct (leave_all h conn).rooms
  unfolding leave_all
  leave_all-rooms_distinct distinct = elim (Option-cases (lookup conn h.client_rooms)) [
    | inl missing ↦ rw (missing, leave_all) distinct
    | inr (set, found) ↦ rw (found, leave_all) (AllDistinct-drop_members conn set h.rooms distinct)
  ]

  leave_all-client_rooms :
      (k : Str)
      → lookup k (leave_all h conn).client_rooms
        ≡ (if conn == k then none else lookup k h.client_rooms)
  unfolding leave_all
  leave_all-client_rooms k = ground (arith, ==_iff conn k, lookup-delete conn k h.client_rooms)

  pub leave_all_rest :
      ((leave_all h conn).clients ≡ h.clients)
      × ((leave_all h conn).max_rooms_per_client ≡ h.max_rooms_per_client)
  unfolding leave_all
  leave_all_rest = ground arith

  leave_all-IsConsistent : IsConsistent h → IsConsistent (leave_all h conn)
  leave_all-IsConsistent v = record {
    agree = λ room k. ground (
      arith,
      ==_iff conn k,
      member-leave_all h conn room k (v.agree room conn),
      joined-leave_all h conn k room,
      v.agree room k,
    );
    rooms_full = leave_all-rooms_full v.rooms_full;
    sets_full = λ k inner e. ground (arith, leave_all-client_rooms k, v.sets_full k inner);
    bounded =
        λ k set e p. ground (arith, leave_all-client_rooms k, leave_all_rest, v.bounded k set);
    rooms_distinct = leave_all-rooms_distinct v.rooms_distinct;
    clients_distinct = rw leave_all_rest.0 v.clients_distinct;
    rooms_keyed = λ room k c e.
        ground (arith, member-leave_all h conn room k (v.agree room conn), v.rooms_keyed room k c);
    clients_keyed = λ user c e. ground (arith, leave_all_rest, v.clients_keyed user c);
  }

-- Only the registry changes, and it loses no more than one entry.
with_clients-IsConsistent :
    (h : Hub) (clients : Dict ClientRef)
    → ((user : Str) (c : ClientRef) → lookup user clients ≡ some c → c.user_id ≡ user)
    → KeysDistinct clients
    → IsConsistent h
    → IsConsistent (record h { clients = clients })
with_clients-IsConsistent h clients keyed distinct v = record {
  rooms_distinct = v.rooms_distinct;
  clients_distinct = distinct;
  agree = v.agree;
  rooms_full = v.rooms_full;
  sets_full = v.sets_full;
  bounded = v.bounded;
  rooms_keyed = v.rooms_keyed;
  clients_keyed = keyed;
}

pub unregister-IsConsistent :
    (h : Hub) (c : ClientRef) → IsConsistent h → IsConsistent (unregister h c).0
unfolding unregister
unregister-IsConsistent h c v =
    let h' = leave_all h c.connection_id in
    let v' = leave_all-IsConsistent h c.connection_id v in
    elim (Bool-cases (is_active h' c)) [
      | inl active ↦ rw active (
          with_clients-IsConsistent h' (delete c.user_id h'.clients)
            (λ u d e. ground (arith, lookup-delete c.user_id u h'.clients, v'.clients_keyed u d))
            (KeysDistinct-delete c.user_id h'.clients v'.clients_distinct) v')
      | inr stale ↦ rw stale v'
    ]

pub install-IsConsistent : (h : Hub) (c : ClientRef) → IsConsistent h → IsConsistent (install h c)
unfolding install
install-IsConsistent h c v =
    with_clients-IsConsistent h (insert c.user_id c h.clients)
      (λ u d e.
        ground
          (arith, ==_iff c.user_id u, lookup-insert c.user_id u c h.clients, v.clients_keyed u d))
      (KeysDistinct-insert c.user_id c h.clients v.clients_distinct) v

or_empty-KeysDistinct :
    (room : Str) (rooms : Dict (Dict ClientRef))
    → AllDistinct rooms
    → KeysDistinct (or_empty (lookup room rooms))
or_empty-KeysDistinct room rooms h = elim (Option-cases (lookup room rooms)) [
  | inl missing ↦ rw missing tt
  | inr (m, found) ↦ rw found (h room m found)
]

add_member-IsConsistent :
    (h : Hub) (c : ClientRef) (room : Str)
    → at_limit h c.connection_id room ≡ false
    → IsConsistent h
    → IsConsistent (add_member h c room)
unfolding add_member
add_member-IsConsistent h c room below v = record {
  agree = λ r k.
      ground (arith, member-add_member h c room r k, joined-add_member h c room k r, v.agree r k);
  rooms_full = NoEmpty-insert room _ h.rooms (insert-ne-nil c.connection_id c _) v.rooms_full;
  sets_full = NoEmpty-insert c.connection_id _ h.client_rooms (insert-ne-nil room tt _) v.sets_full;
  rooms_distinct =
      AllDistinct-insert room _ h.rooms
        (KeysDistinct-insert c.connection_id c _
          (or_empty-KeysDistinct room h.rooms v.rooms_distinct))
        v.rooms_distinct;
  clients_distinct = v.clients_distinct;
  bounded = λ k set e p. add_member-bounded h c room k set below (v.bounded k) e p;
  rooms_keyed = λ r k d e.
      ground (arith, ==_iff c.connection_id k, member-add_member h c room r k, v.rooms_keyed r k d);
  clients_keyed = v.clients_keyed;
}

pub join-IsConsistent :
    (auth : Authorizer) (h : Hub) (c : ClientRef) (room : Str)
    → IsConsistent h
    → IsConsistent (join auth h c room).0
unfolding join
join-IsConsistent auth h c room v = elim (Option-cases (auth.authorize_join c.user_id room)) [
  | inr (message, refused) ↦ rw (refused, join) v
  | inl allowed ↦ elim (Bool-cases (at_limit h c.connection_id room)) [
    | inl full ↦ rw (allowed, join) (rw full v)
    | inr below ↦ rw (allowed, join) (rw below (add_member-IsConsistent h c room below v))
  ]
]

pub leave-IsConsistent :
    (h : Hub) (c : ClientRef) (room : Str) → IsConsistent h → IsConsistent (leave h c room)
unfolding leave
leave-IsConsistent h c room v = record {
  agree = λ r k. ground (
    arith,
    member-drop_member c.connection_id room h.rooms r k,
    joined-drop_room c.connection_id room h.client_rooms k r,
    v.agree r k,
  );
  rooms_full = NoEmpty-drop_member c.connection_id room h.rooms v.rooms_full;
  sets_full = NoEmpty-drop_room c.connection_id room h.client_rooms v.sets_full;
  rooms_distinct = AllDistinct-drop_member c.connection_id room h.rooms v.rooms_distinct;
  clients_distinct = v.clients_distinct;
  bounded = λ k set e p.
      drop_room-bounded c.connection_id room h.client_rooms h.max_rooms_per_client k set
        (λ s found. v.bounded k s found p) e;
  rooms_keyed = λ r k d e.
      ground (arith, member-drop_member c.connection_id room h.rooms r k, v.rooms_keyed r k d);
  clients_keyed = v.clients_keyed;
}

pub set_broker-IsConsistent :
    (h : Hub) (set : Bool) (node : Str) → IsConsistent h → IsConsistent (set_broker h set node)
unfolding set_broker
set_broker-IsConsistent h set node v = record {
  agree = v.agree;
  rooms_full = v.rooms_full;
  sets_full = v.sets_full;
  bounded = v.bounded;
  rooms_distinct = v.rooms_distinct;
  clients_distinct = v.clients_distinct;
  rooms_keyed = v.rooms_keyed;
  clients_keyed = v.clients_keyed;
}
