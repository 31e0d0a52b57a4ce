-- ===== src/Realtime/Closed.antt =====
-- go-server/internal/realtime/client.go: what a session that is closed can still do.
use websocket.Common.{
  nat_eq_iff, ℕ, ◌+◌, ◌≡◌, refl, ◌∙◌, ap, Bool, true, false, none, some, Option-cases, inl, inr,
  arith,
}
use websocket.Text.{==_refl, ==_iff, Str, text}
use websocket.Broker.Event.{EventCodec}
use websocket.Realtime.Message.{
  Codec, EventPayload, InboundMessage, new_outbound_message, room_join,
}
use websocket.Realtime.Rooms.{Authorizer, Hub, join, member}
use websocket.Realtime.Rooms.Specs.{join-ok}
use websocket.Realtime.Node.{Node, set_hub, set_client}
use websocket.Realtime.Client.{
  send, send_json, send_event, make_event, send_acknowledgement, text_message,
}
use websocket.Realtime.Session.{handle_join, handle_command}
use websocket.Realtime.Loop.{end_reading}
use websocket.Realtime.Moves.Close.{close_again}

-- Sending an event to a closed session queues nothing, runs no cleanup and reports failure: only the
-- count of the envelopes changes.
send_event-closed :
    (codec : Codec) (a : ℕ) (type request_id : Str) (payload : EventPayload) (n : Node)
    → (n.client a).closed ≡ true
    → send_event codec a type request_id payload n ≡ (record n { events = n.events + 1 }, false)
unfolding send_event make_event send_json send
send_event-closed codec a type request_id payload n gone =
    let n' = record n { events = n.events + 1 } in
    elim (Option-cases (new_outbound_message codec n.events type request_id payload)) [
      | inl unmade ↦
          rw (unmade, send_event)
            (ap (λ (k : Node). (k, false)) (close_again a (text "event_id_failed") n' gone))
      | inr (event, made) ↦
          rw (made, send_event)
            (elim (Option-cases (codec.marshal event)) [
              | inl refused ↦
                  rw (refused, send_json)
                    (ap (λ (k : Node). (k, false))
                      (close_again a (text "message_encode_failed") n' gone))
              | inr (bytes, encoded) ↦ rw (encoded, send_json) (sending n' bytes gone)
            ])
    ]
  where
    sending :
        (k : Node) (bytes : Str)
        → (k.client a).closed ≡ true
        → send a text_message bytes k ≡ (k, false)
    sending k bytes h = rw h refl

end_reading-closed :
    (a : ℕ) (reason : Str) (n : Node)
    → (n.client a).closed ≡ true
    → (end_reading a reason n).hub ≡ n.hub
unfolding end_reading
end_reading-closed a reason n gone =
    ap (λ (k : Node). k.hub)
      (close_again a reason (set_client a (record (n.client a) { reading = false }) n)
        (ground (arith, nat_eq_iff a a)))

module _ (codec : Codec) (events : EventCodec) (publish : Str → Str → Node → Node × Bool)
    (auth : Authorizer) (a : ℕ) (m : InboundMessage) (n : Node) where
  handle_join-closed :
      (n.client a).closed ≡ true
      → (n.client a).has_hub ≡ true
      → (join auth n.hub (n.client a).self m.room_id).1 ≡ none
      → handle_join codec events publish auth a m n ≡ (
        record (set_hub (join auth n.hub (n.client a).self m.room_id).0 n) {
          events = n.events + 1;
        },
        true,
        some (text "outbound_unavailable"),
      )
  unfolding handle_join send_acknowledgement
  handle_join-closed gone has ok =
      rw
        (
          has,
          ok,
          handle_join,
          send_event-closed codec a _ _ _
              (set_hub (join auth n.hub (n.client a).self m.room_id).0 n) gone,
        )
        refl

  -- A closed session with a hub that is still handling a join that the hub accepts becomes a
  -- member of the room; the session then ends, and its end leaves it a member.
  pub closed_join-stays :
      (n.client a).closed ≡ true
      → (n.client a).has_hub ≡ true
      → m.type ≡ room_join
      → (join auth n.hub (n.client a).self m.room_id).1 ≡ none
      → let s = (n.client a).self in
        let (n', success, exit) = handle_command codec events publish auth a m n in
        (exit ≡ some (text "outbound_unavailable"))
        × (member
              (end_reading a (text "outbound_unavailable") n').hub.rooms
              m.room_id
              s.connection_id
            ≡ some s)
  unfolding handle_command
  closed_join-stays gone has is_join ok =
      let s = (n.client a).self in
      let n' = record (set_hub (join auth n.hub s m.room_id).0 n) { events = n.events + 1 } in
      rw ((==_iff m.type room_join).1 is_join, handle_join-closed gone has ok)
        (
          refl,
          ap (λ (h : Hub). member h.rooms m.room_id s.connection_id)
                (end_reading-closed a (text "outbound_unavailable") n' gone)
              ∙ ground (
                arith,
                (join-ok auth n.hub s m.room_id ok).0 m.room_id s.connection_id,
                ==_refl m.room_id,
                ==_refl s.connection_id,
              ),
        )
