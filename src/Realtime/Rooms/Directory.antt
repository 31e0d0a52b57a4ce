-- ===== src/Realtime/Rooms/Directory.antt =====
-- What the hub promises to a client of its methods: a directory of users and of members of rooms.
-- The second index, the order of the maps and the limits are forgotten.
use websocket.Common.{
  sym, ◌++◌, ◌≡◌, refl, ◌∙◌, ap, Bool, false, ◌&&◌, none, some, Option, Option-cases, List, [], ◌∷◌,
  arith, ℕ, is_some, if◌then◌else◌, nat_eq, inl, inr,
}
use websocket.Text.{Str, ◌==◌}
use websocket.Dict.{lookup, lookup-insert}
use websocket.Realtime.Rooms.{
  ClientRef, Hub, Authorizer, member, unregister, join, install, set_broker, new_hub, is_active,
}
use websocket.Realtime.Rooms.Invariant.{IsConsistent, new_hub-IsConsistent}
use websocket.Realtime.Rooms.Specs.{unregister_lem, join-ok, join-refused, leave_lem}
use websocket.Realtime.Rooms.Changes.{
  Change, installs, unregisters, joins, leaves, sets_broker, change, changes, change-IsConsistent,
}

pub record Directory : Type 0 where
  pub session : Str → Option ClientRef
  pub room_member : Str → Str → Option ClientRef

abbrev pub empty_directory : Directory
empty_directory = record { session = λ user. none; room_member = λ room conn. none }

-- What happens to a directory.
pub data Event : Type 0 where
  arrives departs : ClientRef → Event
  enters exits : ClientRef → Str → Event

abbrev pub is_current : Option ClientRef → ClientRef → Bool
is_current none c = false
is_current (some held) c = nat_eq held.address c.address && held.connection_id == c.connection_id

abbrev pub happens : Directory → Event → Directory
happens d (arrives c) = record d {
  session = λ user. if c.user_id == user then some c else d.session user;
}
happens d (departs c) = record {
  session = λ user.
      if is_current (d.session c.user_id) c && c.user_id == user then none else d.session user;
  room_member = λ room conn. if c.connection_id == conn then none else d.room_member room conn;
}
happens d (enters c room) = record d {
  room_member =
      λ r conn. if room == r && c.connection_id == conn then some c else d.room_member r conn;
}
happens d (exits c room) = record d {
  room_member =
      λ r conn. if room == r && c.connection_id == conn then none else d.room_member r conn;
}

abbrev pub replay : Directory → List Event → Directory
replay d [] = d
replay d (e ∷ es) = replay (happens d e) es

abbrev pub view : Hub → Directory
view h = record {
  session = λ user. lookup user h.clients;
  room_member = λ room conn. member h.rooms room conn;
}

-- The event of a step: a refused join is none.
abbrev pub event_of : Authorizer → Hub → Change → List Event
event_of auth h (installs c) = arrives c ∷ []
event_of auth h (unregisters c) = departs c ∷ []
event_of auth h (joins c room) = if is_some (join auth h c room).1 then [] else enters c room ∷ []
event_of auth h (leaves c room) = exits c room ∷ []
event_of auth h (sets_broker set node) = []

abbrev pub events_of : Authorizer → Hub → List Change → List Event
events_of auth h [] = []
events_of auth h (x ∷ xs) = event_of auth h x ++ events_of auth (change auth h x) xs

Directory-ext :
    {d e : Directory}
    → ((user : Str) → d.session user ≡ e.session user)
    → ((room conn : Str) → d.room_member room conn ≡ e.room_member room conn)
    → d ≡ e
Directory-ext p q =
    λ i. record { session = λ user. p user i; room_member = λ room conn. q room conn i }

is_active_lem :
    (h : Hub) (c : ClientRef) → is_active h c ≡ is_current (lookup c.user_id h.clients) c
unfolding is_active
is_active_lem h c = ground arith

view-unregister :
    (h : Hub) (c : ClientRef)
    → IsConsistent h
    → view (unregister h c).0 ≡ happens (view h) (departs c)
view-unregister h c v =
    let (rooms, active, sessions) = unregister_lem h c v in
    Directory-ext
      (λ user.
        sessions user
        ∙ ap (λ (b : Bool). if b && c.user_id == user then none else lookup user h.clients)
            (is_active_lem h c))
      rooms

view-join :
    (auth : Authorizer) (h : Hub) (c : ClientRef) (room : Str)
    → IsConsistent h
    → view (join auth h c room).0 ≡ replay (view h) (event_of auth h (joins c room))
view-join auth h c room v = elim (Option-cases (join auth h c room).1) [
  | inl ok ↦
      let (rooms, same) = join-ok auth h c room ok in
      rw ok (Directory-ext (λ user. ap (lookup user) same) rooms)
  | inr (e, bad) ↦ rw bad (ap view (join-refused auth h c room e v bad).0)
]

view-change :
    (auth : Authorizer) (h : Hub) (x : Change)
    → IsConsistent h
    → view (change auth h x) ≡ replay (view h) (event_of auth h x)
unfolding change install set_broker
view-change auth h (installs c) v =
    Directory-ext (λ user. lookup-insert c.user_id user c h.clients) (λ room conn. refl)
view-change auth h (unregisters c) v = view-unregister h c v
view-change auth h (joins c room) v = view-join auth h c room v
view-change auth h (leaves c room) v =
    let (rooms, same) = leave_lem h c room in Directory-ext (λ user. ap (lookup user) same) rooms
view-change auth h (sets_broker set node) v = refl

replay-append : (d : Directory) (xs ys : List Event) → replay d (xs ++ ys) ≡ replay (replay d xs) ys
replay-append d [] ys = refl
replay-append d (x ∷ xs) ys = replay-append (happens d x) xs ys

view-changes :
    (auth : Authorizer) (h : Hub) (xs : List Change)
    → IsConsistent h
    → view (changes auth h xs) ≡ replay (view h) (events_of auth h xs)
unfolding changes
view-changes auth h [] v = refl
view-changes auth h (x ∷ xs) v =
    view-changes auth (change auth h x) xs (change-IsConsistent auth h x v)
    ∙ ap (λ (d : Directory). replay d (events_of auth (change auth h x) xs))
        (view-change auth h x v)
    ∙ sym (replay-append (view h) (event_of auth h x) (events_of auth (change auth h x) xs))

view_empty : (max : ℕ) → view (new_hub max) ≡ empty_directory
unfolding new_hub member lookup
view_empty max = refl

-- The hub refines the directory: after any sequence of registrations, unregistrations, joins, leaves
-- and settings of the broker on a new hub, who is registered and who is a member of which room is
-- what the same events make of the empty directory, where a refused join is no event.
pub view-new_hub :
    (auth : Authorizer) (max : ℕ) (xs : List Change)
    → view (changes auth (new_hub max) xs)
      ≡ replay empty_directory (events_of auth (new_hub max) xs)
view-new_hub auth max xs =
    view-changes auth (new_hub max) xs (new_hub-IsConsistent max)
    ∙ ap (λ (d : Directory). replay d (events_of auth (new_hub max) xs)) (view_empty max)
