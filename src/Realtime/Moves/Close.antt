-- ===== src/Realtime/Moves/Close.antt =====
-- Closing a session preserves the invariant of the node.
use native.Mathlib.Decide.{dec_lt}
use websocket.Common.{
  ℕ, ◌+◌, ◌%◌, ◌^◌, ◌≡◌, ◌≢◌, refl, sym, ap, ◌∙◌, ◌<◌, true, false, ◌&&◌, none, some, if_cases,
  Bool-cases, inl, inr, arith, nat_eq, if◌then◌else◌,
}
use websocket.Text.{Str, ◌==◌, ==_iff, ==_refl, text}
use websocket.Dict.{lookup, lookup-delete}
use websocket.Observability.{
  Metrics, sub_one, decrement_active_connections, increment_heartbeat_timeouts,
  increment_queue_full_disconnects,
}
use websocket.Realtime.Rooms.{member, ClientRef, Hub, is_active, unregister}
use websocket.Realtime.Rooms.Invariant.{leave_all_rest, IsConsistent, unregister-IsConsistent}
use websocket.Realtime.Node.{Node, Client, set_client, count_metric}
use websocket.Realtime.Client.{close, count_close, run_on_close}
use websocket.Realtime.Rooms.Specs.{unregister_lem}
use websocket.Realtime.Moves.Sound.{open_count, IsSound, update, open_count-close}

-- Unregistering takes the session's own entry out of the registry, and no other entry.
pub lookup-unregister :
    (h : Hub) (c : ClientRef) (u : Str)
    → lookup u (unregister h c).0.clients
      ≡ (if is_active h c && c.user_id == u then none else lookup u h.clients)
unfolding unregister is_active
lookup-unregister h c u =
    ground (arith, (leave_all_rest h c.connection_id).0, lookup-delete c.user_id u h.clients)

-- A session that stands in the registry under its user is the active one.
is_active_of_lookup :
    (h : Hub) (c : ClientRef) → lookup c.user_id h.clients ≡ some c → is_active h c ≡ true
unfolding is_active
is_active_of_lookup h c e = ground (arith, ==_refl c.connection_id)

pub record CloseEffect (a : ℕ) (n m : Node) : Type 0 where
  pub client : m.client ≡ update n.client a (record (n.client a) { closed = true })
  pub next : m.next ≡ n.next
  pub hub :
      m.hub ≡ (if (n.client a).has_on_close then (unregister n.hub (n.client a).self).0 else n.hub)
  pub active : m.metrics.active_connections ≡ sub_one n.metrics.active_connections

run_on_close_effect :
    (c : Client) (n : Node)
    → ((run_on_close c n).client ≡ n.client)
      × ((run_on_close c n).next ≡ n.next)
      × ((run_on_close c n).hub ≡ (if c.has_on_close then (unregister n.hub c.self).0 else n.hub))
      × ((run_on_close c n).metrics ≡ n.metrics)
unfolding run_on_close
run_on_close_effect c n = ground arith

pub close_effect :
    (a : ℕ) (reason : Str) (n : Node)
    → (n.client a).closed ≡ false
    → CloseEffect a n (close a reason n)
unfolding close count_close decrement_active_connections increment_heartbeat_timeouts
    increment_queue_full_disconnects
close_effect a reason n alive =
    let c = n.client a in
    let (client, next, hub, metrics) =
      run_on_close_effect c (set_client a (record c { closed = true }) n) in
    let effect : CloseEffect a n (
        count_metric decrement_active_connections
          (run_on_close c (set_client a (record c { closed = true }) n))) =
      record {
        client = client;
        next = next;
        hub = hub;
        active = ap (λ (m : Metrics). sub_one m.active_connections) metrics;
      } in
    let counted : (f : Metrics → Metrics)
        → ((m : Metrics) → (f m).active_connections ≡ m.active_connections)
        → CloseEffect a n (
            count_metric f (
              count_metric decrement_active_connections
                (run_on_close c (set_client a (record c { closed = true }) n)))) =
      λ f same. record {
        client = client;
        next = next;
        hub = hub;
        active = same _ ∙ effect.active;
      } in
    rw alive (
      if_cases (CloseEffect a n) (reason == text "heartbeat_timeout")
        (λ e. counted increment_heartbeat_timeouts (λ m. refl))
        λ e.
          if_cases (CloseEffect a n) (reason == text "outbound_queue_full")
            (λ e. counted increment_queue_full_disconnects (λ m. refl)) (λ e. effect))

sub_one_of_count : (active k : ℕ) → active ≡ (k + 1) % 2 ^ 64 → sub_one active ≡ k % 2 ^ 64
unfolding sub_one
sub_one_of_count active k h = omega arith

-- The registry after a close holds only sessions that it held before, and not the closed one.
pub close-registered :
    (a : ℕ) (n m : Node) (u : Str) (d : ClientRef)
    → CloseEffect a n m
    → IsSound n
    → lookup u m.hub.clients ≡ some d
    → (lookup u n.hub.clients ≡ some d) × (d.address ≢ a)
close-registered a n m u d effect v e = elim (Bool-cases (n.client a).has_on_close) [
  | inr unset ↦
      let old : lookup u n.hub.clients ≡ some d = ground (arith, effect.hub) in
      (old, λ same. ground (arith, v.registered u d old))
  | inl set ↦
      let s = (n.client a).self in
      let law = lookup-unregister n.hub s u in
      let old : lookup u n.hub.clients ≡ some d = ground (arith, effect.hub, law) in
      (
        old,
        λ same.
            let self : s ≡ d = rw (← same) (v.registered u d old).1 in
            let keyed : s.user_id ≡ u =
              ap (λ (c : ClientRef). c.user_id) self ∙ v.consistent.clients_keyed u d old in
            let active : is_active n.hub s ≡ true =
              is_active_of_lookup n.hub s
                (ap (λ (t : Str). lookup t n.hub.clients) keyed ∙ old ∙ ap some (sym self)) in
            ground (arith, effect.hub, law, ==_iff s.user_id u),
      )
]

-- The rooms after a close hold only members that they held before.
close-roomed :
    (a : ℕ) (n m : Node) (room conn : Str) (d : ClientRef)
    → CloseEffect a n m
    → IsSound n
    → member m.hub.rooms room conn ≡ some d
    → (d.address < n.next) × ((n.client d.address).self ≡ d)
close-roomed a n m room conn d effect v e =
    v.roomed room conn d (
      ground (arith, effect.hub, (unregister_lem n.hub (n.client a).self v.consistent).0 room conn))

-- A session that is open has been created.
pub lt_of_open : (n : Node) (a : ℕ) → IsSound n → (n.client a).closed ≡ false → a < n.next
lt_of_open n a v alive = elim (dec_lt a n.next) [
  | yes below ↦ below
  | no above ↦ absurd (ground (arith, v.fresh a))
]

effect-IsSound :
    (a : ℕ) (n m : Node)
    → (n.client a).closed ≡ false
    → CloseEffect a n m
    → IsConsistent m.hub
    → IsSound n
    → IsSound m
effect-IsSound a n m alive effect consistent v =
    let below = lt_of_open n a v alive in
    let closed_client : Client = record (n.client a) { closed = true } in
    let now : (b : ℕ) → m.client b ≡ (if nat_eq b a then closed_client else n.client b) =
      λ b. ap (λ (f : ℕ → Client). f b) effect.client in
    record {
      consistent = consistent;
      bounded = λ b. ground (arith, now b, v.bounded b);
      addressed = λ b h. ground (arith, now b, effect.next, v.addressed b);
      fresh = λ b h. ground (arith, now b, effect.next, v.fresh b);
      registered = λ u d e.
          let (old, other) = close-registered a n m u d effect v e in
          ground (arith, now d.address, effect.next, v.registered u d old);
      roomed = λ r k d e.
          ground (arith, now d.address, effect.next, close-roomed a n m r k d effect v e);
      readers = λ b h. ground (arith, now b, effect.next, v.readers b);
      callbacks = λ b h. ground (arith, now b, v.callbacks b);
      counted =
          rw (effect.client, effect.next, effect.active)
            (sub_one_of_count n.metrics.active_connections
              (open_count (update n.client a closed_client) n.next)
              (v.counted
                ∙ ap (λ (t : ℕ). t % 2 ^ 64)
                    (sym (open_count-close n.client a closed_client n.next below alive refl))));
    }

closed_hub-IsConsistent :
    (a : ℕ) (n m : Node) → CloseEffect a n m → IsConsistent n.hub → IsConsistent m.hub
closed_hub-IsConsistent a n m effect v = rw (effect.hub) (
    if_cases IsConsistent (n.client a).has_on_close
      (λ set. unregister-IsConsistent n.hub (n.client a).self v) (λ unset. v))

pub close_again :
    (a : ℕ) (reason : Str) (n : Node) → (n.client a).closed ≡ true → close a reason n ≡ n
unfolding close
close_again a reason n gone = rw gone

pub close-IsSound : (a : ℕ) (reason : Str) (n : Node) → IsSound n → IsSound (close a reason n)
close-IsSound a reason n v = elim (Bool-cases (n.client a).closed) [
  | inl gone ↦ rw (close_again a reason n gone) v
  | inr alive ↦
      let effect = close_effect a reason n alive in
      effect-IsSound a n _ alive effect (closed_hub-IsConsistent a n _ effect v.consistent) v
]
