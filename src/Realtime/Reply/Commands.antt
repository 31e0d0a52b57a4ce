-- ===== src/Realtime/Reply/Commands.antt =====
-- go-server/internal/realtime/client.go (readLoop): the reply to a command.
use websocket.Common.{ℕ, ◌≡◌, refl, Bool, true, false, Option-cases, inl, inr, if_cases}
use websocket.Text.{Str, ◌==◌}
use websocket.Broker.Event.{EventCodec}
use websocket.Realtime.Message.{
  Codec, InboundMessage, ErrorCode, Decoded, decoded, rejected, room_join, room_leave,
  room_broadcast, private_send,
}
use websocket.Realtime.Rooms.{Authorizer, HubError, join, authorize_broadcast, denied}
use websocket.Realtime.Node.{Node}
use websocket.Realtime.Client.{send_acknowledgement, send_error, send_protocol_error}
use websocket.Realtime.Session.{
  replied, reply_error, handle_join, handle_leave, handle_broadcast, handle_private, handle_command,
  handle_decoded,
}
use websocket.Realtime.Hub.{send_private}
use websocket.Realtime.Reply.{AnswersOrExits, replied_answers}

-- The request that a frame makes: an undecodable one may still carry its identifier.
abbrev pub decoded_request : Decoded → Str
decoded_request (decoded m) = m.request_id
decoded_request (rejected e) = e.request_id

module _ (codec : Codec) (events : EventCodec) (publish : Str → Str → Node → Node × Bool)
    (auth : Authorizer) (a : ℕ) where
  ack_answers :
      (m : InboundMessage) (n : Node)
      → AnswersOrExits codec a m.request_id (replied true (send_acknowledgement codec a m n))
  unfolding send_acknowledgement
  ack_answers m n = replied_answers codec a m.request_id _ true n

  error_answers :
      (m : InboundMessage) (code : ErrorCode) (e : HubError) (n : Node)
      → AnswersOrExits codec a m.request_id (reply_error codec events publish auth a m code e n)
  unfolding reply_error send_error
  error_answers m code e n = replied_answers codec a m.request_id _ false n

  handle_join-answers :
      (m : InboundMessage) (n : Node)
      → AnswersOrExits codec a m.request_id (handle_join codec events publish auth a m n)
  unfolding handle_join
  handle_join-answers m n =
      if_cases (AnswersOrExits codec a m.request_id) (n.client a).has_hub
        (λ has. elim (Option-cases (join auth n.hub (n.client a).self m.room_id).1) [
          | inl ok ↦ rw (ok, handle_join) (ack_answers m _)
          | inr (e, refused) ↦ rw (refused, handle_join) (error_answers m _ e _)
        ])
        (λ nil. ack_answers m n)

  handle_leave-answers :
      (m : InboundMessage) (n : Node)
      → AnswersOrExits codec a m.request_id (handle_leave codec events publish auth a m n)
  unfolding handle_leave
  handle_leave-answers m n = ack_answers m _

  handle_broadcast-answers :
      (m : InboundMessage) (n : Node)
      → AnswersOrExits codec a m.request_id (handle_broadcast codec events publish auth a m n)
  unfolding handle_broadcast
  handle_broadcast-answers m n =
      if_cases (AnswersOrExits codec a m.request_id) (n.client a).has_hub
        (λ has. elim (Option-cases (authorize_broadcast auth n.hub (n.client a).self m.room_id)) [
          | inl ok ↦ rw (ok, handle_broadcast) (ack_answers m _)
          | inr (e, refused) ↦ rw (refused, handle_broadcast) (error_answers m _ e n)
        ])
        (λ nil. ack_answers m n)

  handle_private-answers :
      (m : InboundMessage) (n : Node)
      → AnswersOrExits codec a m.request_id (handle_private codec events publish auth a m n)
  unfolding handle_private
  handle_private-answers m n =
      let user = (n.client a).self.user_id in
      if_cases (AnswersOrExits codec a m.request_id) (n.client a).has_hub
        (λ has. elim (Option-cases (auth.authorize_private_send user m.recipient_id)) [
          | inr (e, refused) ↦ rw (refused, handle_private) (error_answers m _ (denied e) n)
          | inl ok ↦
              elim (Option-cases
                (send_private codec events publish user m.recipient_id m.payload n).1) [
                  | inl fine ↦ rw (ok, handle_private) (rw (fine, handle_private) (ack_answers m _))
                  | inr (e, failed) ↦
                      rw (ok, handle_private) (rw (failed, handle_private) (error_answers m _ e _))
                ]
        ])
        (λ nil. ack_answers m n)

  handle_command-answers :
      (m : InboundMessage) (n : Node)
      → AnswersOrExits codec a m.request_id (handle_command codec events publish auth a m n)
  unfolding handle_command
  handle_command-answers m n =
      let Answers = AnswersOrExits codec a m.request_id in
      if_cases Answers (m.type == room_join) (λ e. handle_join-answers m n)
        λ e.
          if_cases Answers (m.type == room_leave) (λ e. handle_leave-answers m n)
            λ e.
              if_cases Answers (m.type == room_broadcast) (λ e. handle_broadcast-answers m n)
                λ e.
                  if_cases Answers (m.type == private_send) (λ e. handle_private-answers m n)
                    λ e. ack_answers m n

  pub handle_decoded-answers :
      (limited : Bool) (d : Decoded) (n : Node)
      → AnswersOrExits codec a
          (decoded_request d)
          (handle_decoded codec events publish auth a limited d n)
  unfolding handle_decoded send_error send_protocol_error
  handle_decoded-answers limited (decoded m) n =
      if_cases (AnswersOrExits codec a m.request_id) limited
        (λ e. replied_answers codec a m.request_id _ false n) (λ e. handle_command-answers m n)
  handle_decoded-answers limited (rejected e) n =
      if_cases (AnswersOrExits codec a e.request_id) limited
        (λ h. replied_answers codec a e.request_id _ false n)
        (λ h. replied_answers codec a e.request_id _ false n)

  pub handle_decoded-accepts :
      (limited : Bool) (d : Decoded) (n : Node)
      → (handle_decoded codec events publish auth a limited d n).1 ≡ true
      → (limited ≡ false) × (m : InboundMessage) × (d ≡ decoded m)
  unfolding handle_decoded
  handle_decoded-accepts false (decoded m) n e = (refl, m, refl)
  handle_decoded-accepts true (decoded m) n e = absurd cc
  handle_decoded-accepts false (rejected problem) n e = absurd cc
  handle_decoded-accepts true (rejected problem) n e = absurd cc
