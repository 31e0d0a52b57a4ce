-- ===== src/Realtime/Reply.antt =====
-- go-server/internal/realtime/client.go (readLoop): the reply to a frame.
pub mod Commands
pub mod Frames
use websocket.Common.{
  ℕ, ◌+◌, ◌≡◌, refl, ap, sym, subst, ◌∙◌, Bool, true, false, ◌&&◌, ◌||◌, not, List, [], ◌∷◌, ◌++◌,
  Option, none, some, Option-cases, Bool-cases, inl, inr, arith, ltb, nat_eq, nat_eq_iff, if_cases,
  if◌then◌else◌, ◌⊎◌, length,
}
use websocket.Text.{Str, text, ◌==◌}
use websocket.Broker.Event.{EventCodec}
use websocket.Realtime.Message.{
  Codec, OutboundMessage, EventPayload, InboundMessage, ProtocolError, ErrorCode, Decoded, decoded,
  rejected, decode_inbound, command_ack, event_error, new_event_id, new_outbound_message, room_join,
  room_leave, room_broadcast, private_send,
}
use websocket.Realtime.Rooms.{Authorizer, HubError, join, leave, authorize_broadcast, denied}
use websocket.Realtime.Node.{Node, Frame, set_client, set_hub, count_metric}
use websocket.Realtime.Client.{
  send, send_json, send_event, make_event, text_message, send_acknowledgement, send_error,
  send_protocol_error,
}
use websocket.Realtime.Session.{
  Received, Handled, replied, rate_limit, count_inbound, reply_error, handle_join, handle_leave,
  handle_broadcast, handle_private, handle_command, handle_decoded, handle_frame, read_frame,
}
use websocket.Realtime.Hub.{send_private}
use websocket.Realtime.Loop.{end_reading, read_round}

-- The last frame of the session's queue is a reply of this type to the request.
pub record IsAnswered (codec : Codec) (a : ℕ) (type request_id : Str) (n : Node) : Type 0 where
  pub event : OutboundMessage
  pub kind : event.type ≡ type
  pub same_request : event.request_id ≡ request_id
  pub bytes : Str
  pub encoded : codec.marshal event ≡ some bytes
  pub before : List Frame
  pub queued :
      (n.client a).send ≡ before ++ record { message_type = text_message; payload = bytes } ∷ []

-- A command that succeeds is acknowledged.
abbrev pub reply_type : Bool → Str
reply_type true = command_ack
reply_type false = event_error

module _ (codec : Codec) (a : ℕ) (request_id : Str) where
  -- What a command leaves: it ends the loop, or the request is answered.
  abbrev pub AnswersOrExits : Handled → Type 0
  AnswersOrExits h = h.2 ≡ none → IsAnswered codec a (reply_type h.1) request_id h.0

  sent_last :
      (payload : Str) (n : Node)
      → (send a text_message payload n).1 ≡ true
      → ((send a text_message payload n).0.client a).send
        ≡ (n.client a).send ++ record { message_type = text_message; payload = payload } ∷ []
  unfolding send
  sent_last payload n ok = ground (arith, nat_eq_iff a a)

  json_answers :
      (type : Str) (event : OutboundMessage) (n : Node)
      → event.type ≡ type
      → event.request_id ≡ request_id
      → (send_json codec a event n).1 ≡ true
      → IsAnswered codec a type request_id (send_json codec a event n).0
  unfolding send_json
  json_answers type event n kind same ok = elim (Option-cases (codec.marshal event)) [
    | inl refused ↦
        let unsent : (send_json codec a event n).1 ≡ false = rw (refused, send_json) refl in
        absurd cc
    | inr (bytes, encoded) ↦
        let sends : send_json codec a event n ≡ send a text_message bytes n =
          rw (encoded, send_json) refl in
        record {
          event = event;
          kind = kind;
          same_request = same;
          bytes = bytes;
          encoded = encoded;
          before = (n.client a).send;
          queued =
              ap (λ (r : Node × Bool). (r.0.client a).send) sends
              ∙ sent_last bytes n (ap (λ (r : Node × Bool). r.1) (sym sends) ∙ ok);
        }
  ]

  event_fields :
      (k : ℕ) (type : Str) (payload : EventPayload) (event : OutboundMessage)
      → new_outbound_message codec k type request_id payload ≡ some event
      → (event.type ≡ type) × (event.request_id ≡ request_id)
  unfolding new_outbound_message
  event_fields k type payload event made = ground arith

  -- An event that was sent is the last in the queue.
  sent_answers :
      (type : Str) (payload : EventPayload) (n : Node)
      → (send_event codec a type request_id payload n).1 ≡ true
      → IsAnswered codec a type request_id (send_event codec a type request_id payload n).0
  unfolding send_event make_event
  sent_answers type payload n ok =
      elim (Option-cases (new_outbound_message codec n.events type request_id payload)) [
        | inl unmade ↦
            let unsent : (send_event codec a type request_id payload n).1 ≡ false =
              rw (unmade, send_event) refl in
            absurd cc
        | inr (event, made) ↦
            let n' = record n { events = n.events + 1 } in
            let same : send_event codec a type request_id payload n ≡ send_json codec a event n' =
              rw (made, send_event) refl in
            subst (λ (r : Node × Bool). IsAnswered codec a type request_id r.0) (sym same)
              (json_answers type event n' (event_fields n.events type payload event made).0
                (event_fields n.events type payload event made).1
                (ap (λ (r : Node × Bool). r.1) (sym same) ∙ ok))
      ]

  pub replied_answers :
      (payload : EventPayload) (success : Bool) (n : Node)
      → AnswersOrExits
          (replied success (send_event codec a (reply_type success) request_id payload n))
  replied_answers payload success n quiet =
      elim (Bool-cases (send_event codec a (reply_type success) request_id payload n).1) [
        | inl sent ↦ sent_answers (reply_type success) payload n sent
        | inr unsent ↦ absurd ground arith
      ]
