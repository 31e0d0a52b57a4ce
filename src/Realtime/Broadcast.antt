-- ===== src/Realtime/Broadcast.antt =====
-- go-server/internal/realtime/hub.go: who gets a room broadcast.
use websocket.Common.{
  ◌+◌, subst, ℕ, ◌≡◌, refl, ◌∙◌, ap, sym, Bool, false, ◌&&◌, none, some, Option, Option-cases,
  Bool-cases, if_cases, inl, inr, arith, not, if◌then◌else◌, nat_eq, nat_eq_iff, [], ◌∷◌,
}
use websocket.Text.{Str, ◌==◌, ==_iff}
use websocket.Dict.{Dict, lookup, KeysDistinct}
use websocket.Realtime.Message.{
  Codec, OutboundMessage, new_outbound_message, broadcast, room_broadcast,
}
use websocket.Realtime.Rooms.{ClientRef, member}
use websocket.Realtime.Node.{Node, Client, Frame}
use websocket.Realtime.Client.{make_event, text_message}
use websocket.Realtime.Hub.{deliver, recipients, local_broadcast}
use websocket.Realtime.Moves.Sound.{IsSound}
use websocket.Realtime.Delivery.{offered, has_address, AddressesDistinct, deliver_lem}

-- Whether a member of a room is the session at address b, of a user other than the sender.
abbrev pub is_other : Str → ℕ → Option ClientRef → Bool
is_other sender b none = false
is_other sender b (some c) = nat_eq c.address b && not (c.user_id == sender)

-- A room is genuine if its members stand under their own connections and are what they say.
abbrev IsGenuine : (ℕ → Client) → Dict ClientRef → Type 0
IsGenuine client m =
    (k : Str) (c : ClientRef)
    → lookup k m ≡ some c
    → (c.connection_id ≡ k) × ((client c.address).self ≡ c)

module _ (client : ℕ → Client) (sender : Str) where
  IsGenuine-tail :
      (k : Str) (c : ClientRef) (m : Dict ClientRef)
      → lookup k m ≡ none
      → IsGenuine client ((k, c) ∷ m)
      → IsGenuine client m
  unfolding lookup
  IsGenuine-tail k c m absent g j d e = g j d (ground (arith, ==_iff k j))

  IsGenuine-head :
      (k : Str) (c : ClientRef) (m : Dict ClientRef)
      → IsGenuine client ((k, c) ∷ m)
      → (c.connection_id ≡ k) × ((client c.address).self ≡ c)
  unfolding lookup
  IsGenuine-head k c m g = g k c (ground (arith, ==_iff k k))

  has_address-recipients :
      (m : Dict ClientRef) (b : ℕ)
      → KeysDistinct m
      → IsGenuine client m
      → has_address b (recipients sender m)
        ≡ is_other sender b (lookup (client b).self.connection_id m)
  unfolding recipients lookup
  has_address-recipients [] b h g = refl
  has_address-recipients ((k, c) ∷ m) b h g =
      let (key, genuine) = IsGenuine-head k c m g in
      let rest = has_address-recipients m b h.1 (IsGenuine-tail k c m h.0 g) in
      elim (Bool-cases (nat_eq b c.address)) [
        | inl here ↦
            let same : (client b).self ≡ c =
              subst (λ (t : ℕ). (client t).self ≡ c) (sym ((nat_eq_iff b c.address).0 here))
                genuine in
            ground (
              arith,
              nat_eq_iff b c.address,
              nat_eq_iff c.address b,
              ==_iff k (client b).self.connection_id,
              ap (λ (d : ClientRef). d.connection_id) same,
            )
        | inr other ↦ ground (
          arith,
          nat_eq_iff b c.address,
          nat_eq_iff c.address b,
          ==_iff k (client b).self.connection_id,
        )
      ]

  AddressesDistinct-recipients :
      (m : Dict ClientRef)
      → KeysDistinct m
      → IsGenuine client m
      → AddressesDistinct (recipients sender m)
  unfolding recipients
  AddressesDistinct-recipients [] h g = tt
  AddressesDistinct-recipients ((k, c) ∷ m) h g =
      let (key, genuine) = IsGenuine-head k c m g in
      let tail_genuine = IsGenuine-tail k c m h.0 g in
      let rest = AddressesDistinct-recipients m h.1 tail_genuine in
      if_cases AddressesDistinct (c.user_id == sender) (λ own. rest)
        (λ other. (
          has_address-recipients m c.address h.1 tail_genuine
              ∙ ap (λ (t : Str). is_other sender c.address (lookup t m))
                  (ap (λ (d : ClientRef). d.connection_id) genuine ∙ key)
              ∙ ap (is_other sender c.address) h.0,
          rest,
        ))

member_found :
    (n : Node) (room conn : Str) (m : Dict ClientRef)
    → lookup room n.hub.rooms ≡ some m
    → member n.hub.rooms room conn ≡ lookup conn m
unfolding member
member_found n room conn m found = rw (found, member) refl

room-IsGenuine :
    (n : Node) (room : Str) (m : Dict ClientRef)
    → IsSound n
    → lookup room n.hub.rooms ≡ some m
    → IsGenuine n.client m
room-IsGenuine n room m v found k c h =
    let here = member_found n room k m found ∙ h in
    (v.consistent.rooms_keyed room k c here, (v.roomed room k c here).1)

-- In a node that keeps its invariant, a broadcast whose envelope can be made and encoded offers one
-- frame, the encoded envelope, to every session that is a member of the room under its connection
-- and belongs to another user than the sender; every other session is left exactly as it was.
pub local_broadcast_lem :
    (codec : Codec) (sender room payload : Str) (n : Node) (event : OutboundMessage) (bytes : Str)
    → IsSound n
    → new_outbound_message codec n.events room_broadcast [] (broadcast room sender payload)
      ≡ some event
    → codec.marshal event ≡ some bytes
    → (b : ℕ)
    → (local_broadcast codec sender room payload n).client b ≡ (
        if is_other sender b (member n.hub.rooms room (n.client b).self.connection_id)
        then offered (record { message_type = text_message; payload = bytes }) (n.client b)
        else n.client b)
unfolding local_broadcast make_event
local_broadcast_lem codec sender room payload n event bytes v made encodes b =
    elim (Option-cases (lookup room n.hub.rooms)) [
      | inl missing ↦ rw (missing, local_broadcast) (nobody missing)
      | inr ([], found) ↦ absurd (v.consistent.rooms_full room [] found refl)
      | inr (e ∷ m, found) ↦
          rw (found, local_broadcast) (rw (made, local_broadcast) (everybody (e ∷ m) found))
    ]
  where
    frame : Frame
    frame = record { message_type = text_message; payload = bytes }

    nobody :
        lookup room n.hub.rooms ≡ none
        → n.client b ≡ (
            if is_other sender b (member n.hub.rooms room (n.client b).self.connection_id)
            then offered frame (n.client b)
            else n.client b)
    nobody missing =
        let absent : member n.hub.rooms room (n.client b).self.connection_id ≡ none =
          unfold member in rw (missing, member) refl in
        ground (arith, ap (is_other sender b) absent)

    everybody :
        (m : Dict ClientRef)
        → lookup room n.hub.rooms ≡ some m
        → (deliver codec event (recipients sender m) (record n { events = n.events + 1 })).client b
          ≡ (if is_other sender b (member n.hub.rooms room (n.client b).self.connection_id)
              then offered frame (n.client b)
              else n.client b)
    everybody m found =
        let distinct = v.consistent.rooms_distinct room m found in
        let genuine = room-IsGenuine n room m v found in
        deliver_lem codec event bytes encodes (recipients sender m) _ b
          (AddressesDistinct-recipients n.client sender m distinct genuine)
        ∙ ap (λ (t : Bool). if t then offered frame (n.client b) else n.client b)
            (has_address-recipients n.client sender m b distinct genuine
              ∙ ap (is_other sender b) (sym (member_found n room _ m found)))
