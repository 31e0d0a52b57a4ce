-- ===== src/Realtime/Rooms.antt =====
-- go-server/internal/realtime/hub.go and authorizer.go: the state of the hub, and the operations that
-- change only that state (Unregister, Join, Leave, AuthorizeBroadcast, SetBroker, Lookup, Count,
-- Snapshot). Each runs under the hub's lock, so it is one step. A map of the hub is a `Dict`; the
-- log lines are left out. maxRoomsPerClient is read only where it is positive, so 0 stands for every
-- value that is not.
pub mod Membership
pub mod Laws
pub mod Limit
pub mod Invariant
pub mod Changes
pub mod Specs
pub mod Directory
use websocket.Common.{
  ℕ, ◌≡◌, Bool, true, false, ◌&&◌, List, [], ◌∷◌, Option, none, some, ltb, leb, nat_eq, not,
  if◌then◌else◌, length, is_some, is_empty, map,
}
use websocket.Text.{Str, ◌==◌, text}
use websocket.Dict.{Dict, StrSet, lookup, insert, delete}

-- A *Client: the address, and the two fields that never change.
pub record ClientRef : Type 0 where
  pub address : ℕ
  pub connection_id : Str
  pub user_id : Str

pub record Hub : Type 0 where
  pub clients : Dict ClientRef
  pub rooms : Dict (Dict ClientRef)
  pub client_rooms : Dict StrSet
  pub max_rooms_per_client : ℕ
  -- whether a broker is set
  pub broker : Bool
  pub node_id : Str

-- The errors that the hub's methods return; the first and the last three come from what it calls.
pub data HubError : Type 0 where
  denied : Str → HubError
  room_limit recipient_offline recipient_overloaded : HubError
  event_id_failed encode_failed publish_failed : HubError

-- `none` is the nil error; a text is the error's message.
pub record Authorizer : Type 0 where
  pub authorize_join : Str → Str → Option Str
  pub authorize_publish : Str → Str → Option Str
  pub authorize_private_send : Str → Str → Option Str

abbrev pub allow_all : Authorizer
allow_all = record {
  authorize_join = λ user room. none;
  authorize_publish = λ user room. none;
  authorize_private_send = λ sender recipient. none;
}

unfoldable pub new_hub : ℕ → Hub
new_hub max_rooms = record {
  clients = [];
  rooms = [];
  client_rooms = [];
  max_rooms_per_client = max_rooms;
  broker = false;
  node_id = [];
}

-- h.rooms[roomID][connID]
unfoldable pub member : Dict (Dict ClientRef) → Str → Str → Option ClientRef
member rooms room conn = elim (lookup room rooms) [
  | none ↦ none
  | some clients ↦ lookup conn clients
]

-- Whether h.clientRooms[connID][roomID] exists.
unfoldable pub joined : Dict StrSet → Str → Str → Bool
joined client_rooms conn room = elim (lookup conn client_rooms) [
  | none ↦ false
  | some set ↦ is_some (lookup room set)
]

-- Takes connID out of h.rooms[roomID], and the room out of h.rooms when it is left empty.
unfoldable pub drop_member : Str → Str → Dict (Dict ClientRef) → Dict (Dict ClientRef)
drop_member conn room rooms = elim (lookup room rooms) [
  | none ↦ rooms
  | some clients ↦
      let left = delete conn clients in
      if is_empty left then delete room rooms else insert room left rooms
]

-- The loop of Unregister over the rooms that the connection has joined.
unfoldable pub drop_members : Str → StrSet → Dict (Dict ClientRef) → Dict (Dict ClientRef)
unfolding drop_member
drop_members conn [] rooms = rooms
drop_members conn ((room, _) ∷ set) rooms = drop_members conn set (drop_member conn room rooms)

unfoldable pub leave_all : Hub → Str → Hub
unfolding drop_members
leave_all h conn = elim (lookup conn h.client_rooms) [
  | none ↦ h
  | some set ↦ record h {
    rooms = drop_members conn set h.rooms;
    client_rooms = delete conn h.client_rooms;
  }
]

-- Whether the registry holds exactly this session for its user.
unfoldable pub is_active : Hub → ClientRef → Bool
is_active h c = elim (lookup c.user_id h.clients) [
  | none ↦ false
  | some current ↦ nat_eq current.address c.address && current.connection_id == c.connection_id
]

unfoldable pub unregister : Hub → ClientRef → Hub × Bool
unregister h c =
    let h' = leave_all h c.connection_id in
    if is_active h' c
    then (record h' { clients = delete c.user_id h'.clients }, true)
    else (h', false)

-- `!joined && max > 0 && len(rooms) >= max`, where the connection has an entry.
unfoldable pub at_limit : Hub → Str → Str → Bool
at_limit h conn room = elim (lookup conn h.client_rooms) [
  | none ↦ false
  | some set ↦
      not (is_some (lookup room set))
      && ltb 0 h.max_rooms_per_client
      && leb h.max_rooms_per_client (length set)
]

abbrev pub or_empty {ℓ} : {A : Type ℓ} → Option (Dict A) → Dict A
or_empty none = []
or_empty (some m) = m

unfoldable pub add_member : Hub → ClientRef → Str → Hub
add_member h c room = record h {
  rooms = insert room (insert c.connection_id c (or_empty (lookup room h.rooms))) h.rooms;
  client_rooms =
      insert c.connection_id (insert room tt (or_empty (lookup c.connection_id h.client_rooms)))
        h.client_rooms;
}

unfoldable pub join : Authorizer → Hub → ClientRef → Str → Hub × Option HubError
join auth h c room = elim (auth.authorize_join c.user_id room) [
  | some message ↦ (h, some (denied message))
  | none ↦
      if at_limit h c.connection_id room then (h, some room_limit) else (add_member h c room, none)
]

-- Takes roomID out of h.clientRooms[connID], and the entry when it is left empty.
unfoldable pub drop_room : Str → Str → Dict StrSet → Dict StrSet
drop_room conn room client_rooms = elim (lookup conn client_rooms) [
  | none ↦ client_rooms
  | some set ↦
      let left = delete room set in
      if is_empty left then delete conn client_rooms else insert conn left client_rooms
]

unfoldable pub leave : Hub → ClientRef → Str → Hub
leave h c room = record h {
  client_rooms = drop_room c.connection_id room h.client_rooms;
  rooms = drop_member c.connection_id room h.rooms;
}

unfoldable pub authorize_broadcast : Authorizer → Hub → ClientRef → Str → Option HubError
unfolding member
authorize_broadcast auth h c room =
    if is_some (member h.rooms room c.connection_id)
    then none
    else elim (auth.authorize_publish c.user_id room) [
      | none ↦ none
      | some message ↦ some (denied message)
    ]

unfoldable pub set_broker : Hub → Bool → Str → Hub
set_broker h set node = record h { broker = set; node_id = node }

-- The locked part of Register; the session that was there is closed afterwards.
unfoldable pub install : Hub → ClientRef → Hub
install h c = record h { clients = insert c.user_id c h.clients }

unfoldable pub find_client : Hub → Str → Option ClientRef
find_client h user = lookup user h.clients

unfoldable pub count : Hub → ℕ
count h = length h.clients

unfoldable pub snapshot : Hub → List ClientRef
snapshot h = map (λ e. e.1) h.clients
