-- ===== src/Realtime/Moves/Preserve.antt =====
-- Every move preserves the invariant of the node, and so does every operation.
use websocket.Common.{
  nat_eq_iff, ◌&&◌, some, ℕ, ◌≡◌, refl, sym, ap, ◌∙◌, subst, ◌<◌, true, false, Option-cases,
  Bool-cases, inl, inr, [], ◌∷◌, arith, length, length-append,
}
use websocket.Text.{Str, ◌==◌}
use websocket.Dict.{lookup-insert}
use websocket.Observability.{increment_active_connections}
use websocket.Realtime.Rooms.{member, ClientRef, Hub, Authorizer, join, leave, install, add_member}
use websocket.Realtime.Rooms.Invariant.{
  IsConsistent, install-IsConsistent, join-IsConsistent, leave-IsConsistent,
}
use websocket.Realtime.Node.{Node, set_hub}
use websocket.Realtime.Client.{ClientOptions, allocate, new_client}
use websocket.Realtime.Hub.{register, replaced_by}
use websocket.Realtime.Loop.{register_session}
use websocket.Realtime.Moves.{
  set_client, Move, tallies, enqueues, dequeues, limits, phases, closes, joins, leaves, makes,
  publishes, creates, registers, Moves, done, more,
}
use websocket.Realtime.Moves.Sound.{open_count-create, IsRegistered, IsSound, set_client-IsSound}
use websocket.Realtime.Rooms.Specs.{join-ok, join-refused, leave_lem}
use websocket.Realtime.Moves.Close.{close-IsSound, lt_of_open}

-- A change of the hub that leaves the registry alone.
set_hub-IsSound :
    (n : Node) (h : Hub)
    → IsConsistent h
    → h.clients ≡ n.hub.clients
    → ((room conn : Str) (c : ClientRef)
        → member h.rooms room conn ≡ some c
        → (c.address < n.next) × ((n.client c.address).self ≡ c))
    → IsSound n
    → IsSound (set_hub h n)
set_hub-IsSound n h consistent same roomed v = record {
  roomed = roomed;
  readers = v.readers;
  callbacks = v.callbacks;
  consistent = consistent;
  bounded = v.bounded;
  addressed = v.addressed;
  fresh = v.fresh;
  registered = λ u c e. v.registered u c (rw (← same) e);
  counted = v.counted;
}

pub join_clients :
    (auth : Authorizer) (h : Hub) (c : ClientRef) (room : Str)
    → (join auth h c room).0.clients ≡ h.clients
unfolding join add_member
join_clients auth h c room = ground arith

-- A member after a join was one before, or is the session that joins.
join-roomed :
    (n : Node) (auth : Authorizer) (a : ℕ) (room : Str)
    → a < n.next
    → IsSound n
    → (r k : Str) (c : ClientRef)
    → member (join auth n.hub (n.client a).self room).0.rooms r k ≡ some c
    → (c.address < n.next) × ((n.client c.address).self ≡ c)
join-roomed n auth a room below v r k c e =
    let s = (n.client a).self in
    let here : s.address ≡ a = v.addressed a below in
    let fits : (s.address < n.next) × ((n.client s.address).self ≡ s) =
      subst (λ (t : ℕ). (t < n.next) × ((n.client t).self ≡ s)) (sym here) (below, refl) in
    elim (Option-cases (join auth n.hub s room).1) [
      | inl ok ↦ elim (Bool-cases (room == r && s.connection_id == k)) [
        | inl mine ↦
            subst (λ (d : ClientRef). (d.address < n.next) × ((n.client d.address).self ≡ d))
              (ground (arith, (join-ok auth n.hub s room ok).0 r k)) fits
        | inr other ↦ v.roomed r k c (ground (arith, (join-ok auth n.hub s room ok).0 r k))
      ]
      | inr (err, bad) ↦ v.roomed r k c (
          ap (λ (h : Hub). member h.rooms r k)
            (sym (join-refused auth n.hub s room err v.consistent bad).0)
          ∙ e)
    ]

leave_clients : (h : Hub) (c : ClientRef) (room : Str) → (leave h c room).clients ≡ h.clients
unfolding leave
leave_clients h c room = refl

new_client-IsSound :
    (n : Node) (o : ClientOptions) → o.has_on_close ≡ true → IsSound n → IsSound (new_client o n)
unfolding new_client increment_active_connections
new_client-IsSound n o callback v = record {
  consistent = v.consistent;
  bounded = λ b. ground (arith, v.bounded b);
  addressed = λ b h. ground (arith, v.addressed b);
  fresh = λ b h. ground (arith, v.fresh b);
  registered = λ u d e. ground (arith, v.registered u d e);
  roomed = λ r k d e. ground (arith, v.roomed r k d e);
  readers = λ b h. ground (arith, v.readers b);
  callbacks = λ b h. ground (arith, v.callbacks b);
  counted = omega (arith, v.counted, open_count-create n.client n.next (allocate n.next o) refl);
}

install-IsSound :
    (n : Node) (s : ClientRef)
    → IsRegistered n s
    → IsSound n
    → IsSound (set_hub (install n.hub s) n)
unfolding install
install-IsSound n s fits v = record {
  consistent = install-IsConsistent n.hub s v.consistent;
  bounded = v.bounded;
  addressed = v.addressed;
  fresh = v.fresh;
  registered = λ u d e. elim (Bool-cases (s.user_id == u)) [
    | inl mine ↦
        subst (IsRegistered n) (ground (arith, lookup-insert s.user_id u s n.hub.clients)) fits
    | inr other ↦ v.registered u d (ground (arith, lookup-insert s.user_id u s n.hub.clients))
  ];
  roomed = v.roomed;
  readers = v.readers;
  callbacks = v.callbacks;
  counted = v.counted;
}

register-IsSound :
    (n : Node) (s : ClientRef) → IsRegistered n s → IsSound n → IsSound (register s n)
unfolding register
register-IsSound n s fits v =
    let installed = install-IsSound n s fits v in
    elim (Option-cases (replaced_by n.hub s)) [
      | inl nobody ↦ rw (nobody, register) installed
      | inr (old, found) ↦ rw (found, register) (close-IsSound old.address _ _ installed)
    ]

-- A session that Handle registers is what it says, and open.
pub marked-IsRegistered :
    (n : Node) (a : ℕ)
    → (n.client a).closed ≡ false
    → (n.client a).has_on_close ≡ true
    → IsSound n
    → IsRegistered (set_client a (record (n.client a) { registered = true }) n) (n.client a).self
marked-IsRegistered n a alive callback v =
    let below = lt_of_open n a v alive in
    let here = v.addressed a below in ground (arith, nat_eq_iff (n.client a).self.address a)

register_session-IsSound :
    (n : Node) (a : ℕ)
    → (n.client a).closed ≡ false
    → (n.client a).has_on_close ≡ true
    → IsSound n
    → IsSound (register_session a n)
unfolding register_session
register_session-IsSound n a alive callback v =
    register-IsSound _ (n.client a).self (marked-IsRegistered n a alive callback v)
      (set_client-IsSound n a _ refl refl refl (v.bounded a) (v.readers a) v)

pub Move-IsSound : {n m : Node} → Move n m → IsSound n → IsSound m
Move-IsSound (tallies n m same) v = record {
  consistent = v.consistent;
  bounded = v.bounded;
  addressed = v.addressed;
  fresh = v.fresh;
  registered = v.registered;
  roomed = v.roomed;
  readers = v.readers;
  callbacks = v.callbacks;
  counted = same ∙ v.counted;
}
Move-IsSound (enqueues n a frame alive room) v =
    set_client-IsSound n a _ refl refl refl
      (omega (arith, length-append {0} (n.client a).send (frame ∷ []))) (v.readers a) v
Move-IsSound (dequeues n a frame rest e) v =
    set_client-IsSound n a _ refl refl refl (omega (arith, ap length e, v.bounded a)) (v.readers a)
      v
Move-IsSound (limits n a limiter) v =
    set_client-IsSound n a _ refl refl refl (v.bounded a) (v.readers a) v
Move-IsSound (phases n a reading alive) v =
    set_client-IsSound n a _ refl refl refl (v.bounded a) (λ on. lt_of_open n a v (alive on)) v
Move-IsSound (closes n a reason) v = close-IsSound a reason n v
Move-IsSound (joins n auth a room below) v =
    set_hub-IsSound n _ (join-IsConsistent auth n.hub _ room v.consistent)
      (join_clients auth n.hub _ room) (join-roomed n auth a room below v) v
Move-IsSound (leaves n a room) v =
    set_hub-IsSound n _ (leave-IsConsistent n.hub _ room v.consistent) (leave_clients n.hub _ room)
      (λ r k c e. v.roomed r k c (ground (arith, (leave_lem n.hub (n.client a).self room).0 r k))) v
Move-IsSound (makes n) v = record {
  consistent = v.consistent;
  bounded = v.bounded;
  addressed = v.addressed;
  fresh = v.fresh;
  registered = v.registered;
  roomed = v.roomed;
  readers = v.readers;
  callbacks = v.callbacks;
  counted = v.counted;
}
Move-IsSound (publishes n ps) v = record {
  consistent = v.consistent;
  bounded = v.bounded;
  addressed = v.addressed;
  fresh = v.fresh;
  registered = v.registered;
  roomed = v.roomed;
  readers = v.readers;
  callbacks = v.callbacks;
  counted = v.counted;
}
Move-IsSound (creates n o callback) v = new_client-IsSound n o callback v
Move-IsSound (registers n a alive callback) v = register_session-IsSound n a alive callback v

pub Moves-IsSound : {n m : Node} → Moves n m → IsSound n → IsSound m
Moves-IsSound done v = v
Moves-IsSound (more r s) v = Move-IsSound s (Moves-IsSound r v)
