-- ===== src/Realtime/Moves/Complete.antt =====
-- Every open session that Handle has registered is the one that the registry holds for its user.
use websocket.Common.{
  ℕ, ◌≡◌, refl, ap, ◌∙◌, sym, true, false, some, Bool-cases, inl, inr, arith, nat_eq, nat_eq_iff,
}
use websocket.Text.{Str, ◌==◌, ==_iff, ==_refl}
use websocket.Dict.{lookup}
use websocket.Realtime.Rooms.{ClientRef, is_active, unregister, find_client, leave}
use websocket.Realtime.Node.{Node, Client, set_client}
use websocket.Realtime.Client.{close, new_client}
use websocket.Realtime.Hub.{register}
use websocket.Realtime.Loop.{register_session}
use websocket.Realtime.Registry.{register_lem, is_replaced}
use websocket.Realtime.Delivery.{close-client}
use websocket.Realtime.Moves.{
  Move, tallies, enqueues, dequeues, limits, phases, closes, joins, leaves, makes, publishes,
  creates, registers, Moves, done, more,
}
use websocket.Realtime.Moves.Sound.{IsSound, set_client-IsSound}
use websocket.Realtime.Moves.Close.{close_effect, close_again, lookup-unregister, lt_of_open}
use websocket.Realtime.Moves.Preserve.{join_clients, Moves-IsSound}

abbrev pub IsComplete : Node → Type 0
IsComplete n =
    (a : ℕ)
    → (n.client a).closed ≡ false
    → (n.client a).registered ≡ true
    → lookup (n.client a).self.user_id n.hub.clients ≡ some (n.client a).self

set_client-IsComplete :
    (n : Node) (a : ℕ) (c : Client)
    → c.self ≡ (n.client a).self
    → c.closed ≡ (n.client a).closed
    → c.registered ≡ (n.client a).registered
    → IsComplete n
    → IsComplete (set_client a c n)
set_client-IsComplete n a c same_self same_closed same_registered v b alive known =
    elim (Bool-cases (nat_eq b a)) [
      | inr other ↦ ground (arith, v b)
      | inl here ↦ ground (arith, nat_eq_iff b a, v a)
    ]

-- The registration of one open session is not undone by the cleanup of another.
kept :
    (n : Node) (a b : ℕ)
    → IsSound n
    → (n.client a).closed ≡ false
    → (n.client b).closed ≡ false
    → nat_eq b a ≡ false
    → lookup (n.client b).self.user_id n.hub.clients ≡ some (n.client b).self
    → lookup (n.client b).self.user_id (unregister n.hub (n.client a).self).0.clients
      ≡ some (n.client b).self
unfolding is_active
kept n a b v alive_a alive other held =
    let here_a = v.addressed a (lt_of_open n a v alive_a) in
    let here_b = v.addressed b (lt_of_open n b v alive) in
    let law = lookup-unregister n.hub (n.client a).self (n.client b).self.user_id in
    elim (Bool-cases ((n.client a).self.user_id == (n.client b).self.user_id)) [
      | inr others ↦ ground arith
      | inl same ↦
          let found : lookup (n.client a).self.user_id n.hub.clients ≡ some (n.client b).self =
            ap (λ (u : Str). lookup u n.hub.clients)
              ((==_iff (n.client a).self.user_id (n.client b).self.user_id).0 same)
            ∙ held in
          let inactive : is_active n.hub (n.client a).self ≡ false = ground (
            arith,
            nat_eq_iff (n.client b).self.address (n.client a).self.address,
            nat_eq_iff b a,
          ) in
          ground arith
    ]

close-IsComplete :
    (a : ℕ) (reason : Str) (n : Node) → IsSound n → IsComplete n → IsComplete (close a reason n)
close-IsComplete a reason n sound v = elim (Bool-cases (n.client a).closed) [
  | inl gone ↦ rw (close_again a reason n gone) v
  | inr alive ↦
      let effect = close_effect a reason n alive in
      λ b alive_b known.
        let now = close-client a reason n b in
        elim (Bool-cases (nat_eq b a)) [
          | inl here ↦ absurd (ground arith)
          | inr other ↦
              let same : (close a reason n).client b ≡ n.client b = ground arith in
              let alive_then : (n.client b).closed ≡ false =
                ap (λ (c : Client). c.closed) (sym same) ∙ alive_b in
              let held = v b alive_then (ap (λ (c : Client). c.registered) (sym same) ∙ known) in
              let after = kept n a b sound alive alive_then other held in
              rw (same) (ground (arith, effect.hub))
        ]
]

-- An open session that shares its user with the one that is registered is replaced by it.
is_replaced-other :
    (m : Node) (s : ClientRef) (b : ℕ)
    → (m.client b).self.address ≡ b
    → nat_eq b s.address ≡ false
    → lookup s.user_id m.hub.clients ≡ some (m.client b).self
    → is_replaced m s b ≡ true
unfolding find_client
is_replaced-other m s b here other held = ground (
  arith,
  nat_eq_iff b (m.client b).self.address,
  nat_eq_iff (m.client b).self.address s.address,
  nat_eq_iff b s.address,
)

module _ (m : Node) (s : ClientRef) (b : ℕ) (sound : IsSound m)
    (alive : ((register s m).client b).closed ≡ false) where
  not_replaced : is_replaced m s b ≡ false
  not_replaced = elim (Bool-cases (is_replaced m s b)) [
    | inr stays ↦ stays
    | inl goes ↦
        let now = (register_lem s m sound).1 b in
        let gone : ((register s m).client b).closed ≡ true =
          ap (λ (c : Client). c.closed) now ∙ rw goes refl in
        absurd cc
  ]

  client_kept : (register s m).client b ≡ m.client b
  client_kept = (register_lem s m sound).1 b ∙ rw not_replaced refl

  register-newest :
      (m.client b).self ≡ s
      → lookup ((register s m).client b).self.user_id (register s m).hub.clients
        ≡ some ((register s m).client b).self
  unfolding find_client
  register-newest mine =
      rw (client_kept)
        (rw (mine) ((register_lem s m sound).0 s.user_id ∙ rw (==_refl s.user_id) refl))

  register-others :
      (m.client b).self.address ≡ b
      → nat_eq b s.address ≡ false
      → lookup (m.client b).self.user_id m.hub.clients ≡ some (m.client b).self
      → lookup ((register s m).client b).self.user_id (register s m).hub.clients
        ≡ some ((register s m).client b).self
  unfolding find_client
  register-others here other held = rw (client_kept) (
      (register_lem s m sound).0 (m.client b).self.user_id
      ∙ elim (Bool-cases (s.user_id == (m.client b).self.user_id)) [
        | inr others ↦ rw others held
        | inl same ↦
            let found : lookup s.user_id m.hub.clients ≡ some (m.client b).self =
              ap (λ (u : Str). lookup u m.hub.clients)
                ((==_iff s.user_id (m.client b).self.user_id).0 same)
              ∙ held in
            let goes = is_replaced-other m s b here other found in
            let stays = not_replaced in absurd cc
      ])

register_session-IsComplete :
    (n : Node) (a : ℕ)
    → (n.client a).closed ≡ false
    → (n.client a).has_on_close ≡ true
    → IsSound n
    → IsComplete n
    → IsComplete (register_session a n)
unfolding register_session
register_session-IsComplete n a alive callback sound v b alive_b known =
    let m = set_client a (record (n.client a) { registered = true }) n in
    let s = (n.client a).self in
    let here_a = sound.addressed a (lt_of_open n a sound alive) in
    let sound_m =
      set_client-IsSound n a (record (n.client a) { registered = true }) refl refl refl
        (sound.bounded a) (sound.readers a) sound in
    let same : (register s m).client b ≡ m.client b = client_kept m s b sound_m alive_b in
    let alive_m : (m.client b).closed ≡ false =
      ap (λ (c : Client). c.closed) (sym same) ∙ alive_b in
    let known_m : (m.client b).registered ≡ true =
      ap (λ (c : Client). c.registered) (sym same) ∙ known in
    elim (Bool-cases (nat_eq b a)) [
      | inl here ↦ register-newest m s b sound_m alive_b (rw here refl)
      | inr other ↦
          register-others m s b sound_m alive_b
            (sound_m.addressed b (lt_of_open m b sound_m alive_m))
            (ground (arith, nat_eq_iff b s.address, nat_eq_iff b a))
            (rw other (v b (rw (other) at alive_m) (rw (other) at known_m)))
    ]

Move-IsComplete : {n m : Node} → Move n m → IsSound n → IsComplete n → IsComplete m
unfolding new_client leave
Move-IsComplete (tallies n m same) sound v = v
Move-IsComplete (enqueues n a frame alive room) sound v =
    set_client-IsComplete n a _ refl refl refl v
Move-IsComplete (dequeues n a frame rest e) sound v = set_client-IsComplete n a _ refl refl refl v
Move-IsComplete (limits n a limiter) sound v = set_client-IsComplete n a _ refl refl refl v
Move-IsComplete (phases n a reading alive) sound v = set_client-IsComplete n a _ refl refl refl v
Move-IsComplete (closes n a reason) sound v = close-IsComplete a reason n sound v
Move-IsComplete (joins n auth a room below) sound v =
    λ b alive known. rw (join_clients auth n.hub (n.client a).self room) (v b alive known)
Move-IsComplete (leaves n a room) sound v = v
Move-IsComplete (makes n) sound v = v
Move-IsComplete (publishes n ps) sound v = v
Move-IsComplete (creates n o callback) sound v = λ b alive known.
    elim (Bool-cases (nat_eq b n.next)) [
      | inl new ↦ absurd (ground arith)
      | inr old ↦ ground (arith, v b)
    ]
Move-IsComplete (registers n a alive callback) sound v =
    register_session-IsComplete n a alive callback sound v

pub Moves-IsComplete : {n m : Node} → Moves n m → IsSound n → IsComplete n → IsComplete m
Moves-IsComplete done sound v = v
Moves-IsComplete (more r s) sound v =
    Move-IsComplete s (Moves-IsSound r sound) (Moves-IsComplete r sound v)
