-- ===== src/Realtime/Registry.antt =====
-- go-server/internal/realtime/hub.go: what Register and CloseAll do to the registry and the sessions.
use websocket.Common.{
  ℕ, ◌≡◌, ◌≢◌, refl, ◌∙◌, ap, sym, Bool, true, false, ◌&&◌, none, some, Option-cases, Bool-cases,
  inl, inr, arith, not, if◌then◌else◌, nat_eq, nat_eq_iff, List, [], ◌∷◌, map,
}
use websocket.Text.{==_refl, Str, ◌==◌, text}
use websocket.Dict.{Dict, lookup, lookup-insert}
use websocket.Realtime.Rooms.{ClientRef, install, is_active, find_client, snapshot}
use websocket.Realtime.Node.{Node, set_hub}
use websocket.Realtime.Client.{close}
use websocket.Realtime.Hub.{register, replaced_by, close_each, close_all}
use websocket.Realtime.Moves.Close.{
  close_effect, close_again, close-registered, close-IsSound, lookup-unregister,
}
use websocket.Realtime.Moves.Sound.{IsSound}
use websocket.Realtime.Delivery.{shut, close-client, has_address}

-- After a close the registry holds only entries that it held before, and none of the closed session.
close_registry :
    (a : ℕ) (reason : Str) (n : Node) (u : Str) (d : ClientRef)
    → IsSound n
    → lookup u (close a reason n).hub.clients ≡ some d
    → (lookup u n.hub.clients ≡ some d) × (d.address ≢ a)
close_registry a reason n u d v e = elim (Bool-cases (n.client a).closed) [
  | inr alive ↦ close-registered a n (close a reason n) u d (close_effect a reason n alive) v e
  | inl gone ↦
      let old : lookup u n.hub.clients ≡ some d =
        ap (λ (m : Node). lookup u m.hub.clients) (sym (close_again a reason n gone)) ∙ e in
      (
        old,
        λ same.
            let open_there = (v.registered u d old).2 in
            let gone_there = ap (λ (t : ℕ). (n.client t).closed) same ∙ gone in cc,
      )
]

close_each-client :
    (cs : List ClientRef) (reason : Str) (n : Node) (b : ℕ)
    → (close_each cs reason n).client b
      ≡ (if has_address b cs then shut (n.client b) else n.client b)
unfolding close_each
close_each-client [] reason n b = refl
close_each-client (c ∷ cs) reason n b =
    close_each-client cs reason (close c.address reason n) b
    ∙ ground (arith, close-client c.address reason n b, nat_eq_iff b c.address)

close_each_registry :
    (cs : List ClientRef) (reason : Str) (n : Node)
    → IsSound n
    → ((u : Str) (d : ClientRef)
        → lookup u n.hub.clients ≡ some d
        → has_address d.address cs ≡ true)
    → (u : Str) → lookup u (close_each cs reason n).hub.clients ≡ none
unfolding close_each
close_each_registry [] reason n v all u = elim (Option-cases (lookup u n.hub.clients)) [
  | inl missing ↦ missing
  | inr (d, found) ↦ absurd (ground (arith, all u d))
]
close_each_registry (c ∷ cs) reason n v all u =
    close_each_registry cs reason (close c.address reason n) (close-IsSound c.address reason n v)
      (λ u' d e.
        let (old, other) = close_registry c.address reason n u' d v e in
        ground (arith, all u' d old, nat_eq_iff d.address c.address))
      u

pub has_address-snapshot :
    (m : Dict ClientRef) (u : Str) (d : ClientRef)
    → lookup u m ≡ some d
    → has_address d.address (map (λ e. e.1) m) ≡ true
unfolding lookup
has_address-snapshot [] u d e = cc
has_address-snapshot ((k, c) ∷ m) u d e =
    ground (arith, has_address-snapshot m u d, nat_eq_iff d.address c.address)

-- In a node that keeps its invariant, CloseAll closes exactly the sessions of the registry, and
-- leaves the registry empty.
pub close_all_lem :
    (reason : Str) (n : Node)
    → IsSound n
    → ((b : ℕ)
        → (close_all reason n).client b
          ≡ (if has_address b (snapshot n.hub) then shut (n.client b) else n.client b))
      × ((user : Str) → find_client (close_all reason n).hub user ≡ none)
unfolding close_all find_client snapshot
close_all_lem reason n v = (
  λ b. close_each-client _ reason n b,
  λ user. close_each_registry _ reason n v (has_address-snapshot n.hub.clients) user,
)

-- Whether the session at address b stood in the registry for this session's user, and is another.
abbrev pub is_replaced : Node → ClientRef → ℕ → Bool
is_replaced n s b = elim (find_client n.hub s.user_id) [
  | none ↦ false
  | some old ↦ nat_eq b old.address && not (nat_eq old.address s.address)
]

module _ (s : ClientRef) (n : Node) where
  abbrev installed : Node
  installed = set_hub (install n.hub s) n

  register-replaced :
      (old : ClientRef)
      → lookup s.user_id n.hub.clients ≡ some old
      → nat_eq old.address s.address ≡ false
      → register s n ≡ close old.address (text "duplicate_session_replaced") installed
  unfolding register replaced_by
  register-replaced old found other = rw (found, register, replaced_by, other) refl

  register-unreplaced : replaced_by n.hub s ≡ none → register s n ≡ installed
  unfolding register
  register-unreplaced nobody = rw (nobody, register) refl

  installed-find_client :
      (user : Str)
      → find_client installed.hub user
        ≡ (if s.user_id == user then some s else find_client n.hub user)
  unfolding find_client install
  installed-find_client user = lookup-insert s.user_id user s n.hub.clients

  -- The cleanup of a replaced session leaves the registry alone: it is not the active session.
  replaced-find_client :
      (old : ClientRef) (reason : Str)
      → IsSound n
      → lookup s.user_id n.hub.clients ≡ some old
      → nat_eq old.address s.address ≡ false
      → (user : Str)
      → find_client (close old.address reason installed).hub user ≡ find_client installed.hub user
  unfolding find_client install is_active
  replaced-find_client old reason v found other user =
      let (below, self, alive, callback) = v.registered s.user_id old found in
      let effect = close_effect old.address reason installed alive in
      let other_user : (lookup s.user_id installed.hub.clients) ≡ some s =
        ground (arith, lookup-insert s.user_id s.user_id s n.hub.clients, ==_refl s.user_id) in
      let keyed = v.consistent.clients_keyed s.user_id old found in
      let here : lookup old.user_id installed.hub.clients ≡ some s =
        ap (λ (t : Str). lookup t installed.hub.clients) keyed ∙ other_user in
      let inactive_old : is_active installed.hub old ≡ false =
        ground (arith, nat_eq_iff s.address old.address, nat_eq_iff old.address s.address) in
      let inactive : is_active installed.hub (n.client old.address).self ≡ false =
        ap (is_active installed.hub) self ∙ inactive_old in
      ground (arith, effect.hub, lookup-unregister installed.hub (n.client old.address).self user)

-- In a node that keeps its invariant, Register makes the session the one that its user has, and
-- leaves the other users theirs; it closes the session that the user had before, if that was
-- another one, and changes no other session.
pub register_lem :
    (s : ClientRef) (n : Node)
    → IsSound n
    → ((user : Str)
        → find_client (register s n).hub user
          ≡ (if s.user_id == user then some s else find_client n.hub user))
      × ((b : ℕ)
          → (register s n).client b ≡ (if is_replaced n s b then shut (n.client b) else n.client b))
unfolding replaced_by find_client
register_lem s n v = elim (Option-cases (lookup s.user_id n.hub.clients)) [
  | inl missing ↦
      rw (register-unreplaced s n (rw (missing, replaced_by) refl))
        ((λ user. installed-find_client s n user), λ b. ground arith)
  | inr (old, found) ↦ elim (Bool-cases (nat_eq old.address s.address)) [
    | inl same ↦
        rw (register-unreplaced s n (rw (found, same, replaced_by) refl))
          ((λ user. installed-find_client s n user), λ b. ground arith)
    | inr other ↦ rw (register-replaced s n old found other) (
        (
          λ user.
              replaced-find_client s n old _ v found other user ∙ installed-find_client s n user,
          λ b.
              close-client old.address _ (installed s n) b
              ∙ ground (arith, nat_eq_iff b old.address),
        ))
  ]
]
