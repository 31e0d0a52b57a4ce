-- ===== src/Realtime/Private.antt =====
-- go-server/internal/realtime/hub.go: what SendPrivate delivers, and what it reports.
use websocket.Common.{
  sym, Bool-cases, ◌++◌, Option, ◌≢◌, ℕ, ◌+◌, ◌≡◌, refl, ◌∙◌, ap, Bool, true, false, ◌&&◌, none,
  some, Option-cases, inl, inr, arith, not, if◌then◌else◌, nat_eq, nat_eq_iff, ltb, length, [],
}
use websocket.Text.{text, Str}
use websocket.Broker.Event.{BrokerEvent, EventCodec}
use websocket.Realtime.Message.{Codec, OutboundMessage, new_outbound_message, private, private_send}
use websocket.Realtime.Rooms.{
  publish_failed, HubError, encode_failed, ClientRef, find_client, recipient_offline,
  recipient_overloaded,
}
use websocket.Realtime.Node.{Node, Client, Frame}
use websocket.Realtime.Client.{make_event, send_json, text_message}
use websocket.Realtime.Hub.{send_private, send_local, relay_private, publish_event}
use websocket.Realtime.Delivery.{offered, send_lem, send_json-client}

abbrev pub has_room : Client → Bool
has_room c = not c.closed && ltb (length c.send) c.queue_capacity

module _ (codec : Codec) (sender recipient payload : Str) (n : Node) (event : OutboundMessage)
    (made : new_outbound_message codec n.events private_send [] (private sender recipient payload)
      ≡ some event) where
  send_local_lem :
      (c : ClientRef)
      → let n' = record n { events = n.events + 1 } in
        send_local codec sender recipient payload c n ≡ (
          (send_json codec c.address event n').0,
          true,
          if (send_json codec c.address event n').1 then none else some recipient_overloaded,
        )
  unfolding send_local make_event
  send_local_lem c = rw (made, send_local) refl

module _ (codec : Codec) (events : EventCodec) (publish : Str → Str → Node → Node × Bool)
    (sender recipient payload : Str) (n : Node) (event : OutboundMessage) (bytes : Str)
    (made : new_outbound_message codec n.events private_send [] (private sender recipient payload)
      ≡ some event)
    (encodes : codec.marshal event ≡ some bytes) where
  abbrev private_frame : Frame
  private_frame = record { message_type = text_message; payload = bytes }

  send_json-taken :
      (c : ClientRef) (m : Node)
      → (send_json codec c.address event m).1 ≡ has_room (m.client c.address)
  unfolding send_json
  send_json-taken c m = rw (encodes, send_json) ((send_lem c.address text_message bytes m).0)

  -- Without a broker, a private message whose envelope can be made and encoded is offered once to the
  -- session that the registry holds for the recipient, and changes no other session; SendPrivate
  -- reports an offline recipient exactly if there is no such session, an overloaded one if that
  -- session is closed or its queue is full, and success if it has taken the frame.
  pub send_private_alone :
      n.hub.broker ≡ false
      → ((send_private codec events publish sender recipient payload n).1
          ≡ elim (find_client n.hub recipient) [
            | none ↦ some recipient_offline
            | some c ↦ if has_room (n.client c.address) then none else some recipient_overloaded
          ])
        × ((b : ℕ)
            → (send_private codec events publish sender recipient payload n).0.client b
              ≡ elim (find_client n.hub recipient) [
                | none ↦ n.client b
                | some c ↦
                    if nat_eq b c.address then offered private_frame (n.client b) else n.client b
              ])
  unfolding send_private relay_private
  send_private_alone alone = elim (Option-cases (find_client n.hub recipient)) [
    | inl offline ↦ rw (offline, send_private, alone) (refl, λ b. refl)
    | inr (c, found) ↦
        rw
          (found, send_private, send_local_lem codec sender recipient payload n event made c, alone)
          (
            ap (λ (t : Bool). if t then none else some recipient_overloaded) (send_json-taken c _),
            λ b.
                send_json-client codec event bytes encodes c.address _ b
                ∙ ground (arith, nat_eq_iff b c.address),
          )
  ]

-- What a failed encoding or a failed publish is: never an offline recipient.
publish_event-online :
    (codec : Codec) (events : EventCodec) (publish : Str → Str → Node → Node × Bool) (subject : Str)
    (e : BrokerEvent) (m : Node)
    → (publish_event codec events publish subject e m).1 ≢ some recipient_offline
unfolding publish_event
publish_event-online codec events publish subject e m offline =
    elim (Option-cases (events.encode e)) [
      | inl refused ↦
          let failed : (publish_event codec events publish subject e m).1 ≡ some encode_failed =
            rw (refused, publish_event) refl in
          absurd cc
      | inr (bytes, made) ↦ elim (Bool-cases (publish subject bytes m).1) [
        | inl ok ↦
            let fine : (publish_event codec events publish subject e m).1 ≡ none =
              rw (made, publish_event, ok) refl in
            absurd cc
        | inr lost ↦
            let failed : (publish_event codec events publish subject e m).1 ≡ some publish_failed =
              rw (made, publish_event, lost) refl in
            absurd cc
      ]
    ]

-- The event of a private message, and whether its publish from a node fails.
abbrev pub private_event : Str → Str → Str → Str → BrokerEvent
private_event node sender recipient payload = record {
  node_id = node;
  type = text "private_send";
  room_id = [];
  sender_id = sender;
  recipient_id = recipient;
  payload = payload;
}

abbrev pub private_publish :
    Codec
    → EventCodec
    → (Str → Str → Node → Node × Bool)
    → Str
    → Str
    → Str
    → Str
    → Node
    → Option HubError
private_publish codec events publish node sender recipient payload m =
    (publish_event codec events publish (text "blockforge.users." ++ recipient)
      (private_event node sender recipient payload) m).1

-- What SendPrivate reports of a recipient with a session on this node.
abbrev pub local_report : Option HubError → Bool → Option HubError
local_report none room = none
local_report (some e) true = none
local_report (some e) false = some recipient_overloaded

local_report-online :
    (err : Option HubError) (room : Bool) → local_report err room ≢ some recipient_offline
local_report-online none room e = cc
local_report-online (some e') true e = cc
local_report-online (some e') false e = cc

module _ (codec : Codec) (events : EventCodec) (publish : Str → Str → Node → Node × Bool)
    (sender recipient payload : Str) (n : Node) (on : n.hub.broker ≡ true) where
  abbrev publish_from : Node → Option HubError
  publish_from = private_publish codec events publish n.hub.node_id sender recipient payload

  -- What the relay reports, by the outcome of the publish.
  relay_private-online :
      (ok : Bool) (local_err : Option HubError) (m : Node)
      → (relay_private codec events publish n.hub.broker n.hub.node_id sender recipient payload ok
          local_err m).1
        ≡ elim (publish_from m) [ none ↦ none | some e ↦ if ok then local_err else some e ]
  unfolding relay_private
  relay_private-online ok local_err m = rw on refl

  send_private-offline :
      find_client n.hub recipient ≡ none
      → (send_private codec events publish sender recipient payload n).1 ≡ publish_from n
  unfolding send_private
  send_private-offline offline =
      rw (offline, send_private) (relay_private-online false none n ∙ same (publish_from n))
    where
      same : (err : Option HubError) → elim err [ none ↦ none | some e ↦ some e ] ≡ err
      same none = refl
      same (some e) = refl

  send_private-local :
      (event : OutboundMessage) (bytes : Str) (c : ClientRef)
      → new_outbound_message codec n.events private_send [] (private sender recipient payload)
        ≡ some event
      → codec.marshal event ≡ some bytes
      → find_client n.hub recipient ≡ some c
      → (send_private codec events publish sender recipient payload n).1
        ≡ local_report
            (publish_from (send_json codec c.address event (record n { events = n.events + 1 })).0)
            (has_room (n.client c.address))
  unfolding send_private
  send_private-local event bytes c made encodes found =
      let n' = record n { events = n.events + 1 } in
      let sent = send_json codec c.address event n' in
      rw (found, send_private, send_local_lem codec sender recipient payload n event made c)
        (relay_private-online true (if sent.1 then none else some recipient_overloaded) sent.0
          ∙ reported (publish_from sent.0) sent.1
          ∙ ap (local_report (publish_from sent.0)) (
              send_json-taken codec events publish sender recipient payload n event bytes made
                encodes c n'))
    where
      reported :
          (err : Option HubError) (room : Bool)
          → elim err [ none ↦ none | some e ↦ if room then none else some recipient_overloaded ]
            ≡ local_report err room
      reported none room = refl
      reported (some e) true = refl
      reported (some e) false = refl

  -- With a broker, what SendPrivate reports, if the envelope can be made and encoded: for a recipient
  -- without a session on this node, the outcome of the publish; for one with a session, nothing if
  -- the publish succeeds or the session has taken the frame, and an overloaded recipient otherwise. So
  -- an offline recipient is never reported as such, and a session that is closed or full is not
  -- reported where the publish succeeds.
  pub send_private_relayed :
      (event : OutboundMessage) (bytes : Str)
      → new_outbound_message codec n.events private_send [] (private sender recipient payload)
        ≡ some event
      → codec.marshal event ≡ some bytes
      → ((send_private codec events publish sender recipient payload n).1
          ≡ elim (find_client n.hub recipient) [
            | none ↦ private_publish codec events publish n.hub.node_id sender recipient payload n
            | some c ↦
                local_report
                  (private_publish codec events publish n.hub.node_id sender recipient payload
                    (send_json codec c.address event (record n { events = n.events + 1 })).0)
                  (has_room (n.client c.address))
          ])
        × ((send_private codec events publish sender recipient payload n).1
            ≢ some recipient_offline)
  send_private_relayed event bytes made encodes =
      elim (Option-cases (find_client n.hub recipient)) [
        | inl offline ↦
            let told = send_private-offline offline in
            (
              rw offline told,
              λ e.
                  publish_event-online codec events publish _
                    (private_event n.hub.node_id sender recipient payload) n (sym told ∙ e),
            )
        | inr (c, found) ↦
            let told = send_private-local event bytes c made encodes found in
            (rw found told, λ e. local_report-online _ _ (sym told ∙ e))
      ]
