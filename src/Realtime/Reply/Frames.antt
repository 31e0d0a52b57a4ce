-- ===== src/Realtime/Reply/Frames.antt =====
-- go-server/internal/realtime/client.go (readLoop): every frame is answered, or ends its session.
use websocket.Common.{
  subst, ℕ, ◌≡◌, refl, ap, ◌∙◌, Bool, true, false, ◌&&◌, not, [], Option, none, Option-cases,
  Bool-cases, inl, inr, arith, ltb, nat_eq, nat_eq_iff, if_cases, if◌then◌else◌, ◌⊎◌,
}
use websocket.Text.{Str}
use websocket.Observability.{increment_messages_received}
use websocket.Broker.Event.{EventCodec}
use websocket.Realtime.Message.{Codec, InboundMessage, decoded, decode_inbound}
use websocket.Realtime.Rooms.{Authorizer}
use websocket.Realtime.Node.{Client, Node, set_client, count_metric}
use websocket.Realtime.Client.{text_message, send_protocol_error}
use websocket.Realtime.Session.{
  rate_limit, Received, count_inbound, handle_decoded, handle_frame, read_frame,
}
use websocket.Realtime.Loop.{end_reading, read_round}
use websocket.Realtime.Reply.{reply_type, IsAnswered, replied_answers}
use websocket.Realtime.Delivery.{close-client}
use websocket.Realtime.Reply.Commands.{
  decoded_request, handle_decoded-answers, handle_decoded-accepts,
}

abbrev pub frame_request : Codec → Received → Str
frame_request codec r =
    if nat_eq r.message_type text_message
    then decoded_request (decode_inbound codec r.payload)
    else []

-- A reply to a frame, and what an acknowledgement says.
pub record IsReplied (codec : Codec) (a : ℕ) (r : Received) (limited : Bool) (n : Node)
    : Type 0 where
  pub accepted : Bool
  pub answered : IsAnswered codec a (reply_type accepted) (frame_request codec r) n
  pub only_commands :
      accepted ≡ true
      → (limited ≡ false)
        × (nat_eq r.message_type text_message ≡ true)
        × (m : InboundMessage) × (decode_inbound codec r.payload ≡ decoded m)

module _ (codec : Codec) (events : EventCodec) (publish : Str → Str → Node → Node × Bool)
    (auth : Authorizer) (a : ℕ) where
  -- The counters of a frame touch no session.
  counted_answers :
      (reply request_id : Str) (took : ℕ) (type : Str) (success : Bool) (n : Node)
      → IsAnswered codec a reply request_id n
      → IsAnswered codec a reply request_id (count_inbound took type success n)
  unfolding count_inbound
  counted_answers reply request_id took type success n v = record {
    event = v.event;
    kind = v.kind;
    same_request = v.same_request;
    bytes = v.bytes;
    encoded = v.encoded;
    before = v.before;
    queued = v.queued;
  }

  text_request :
      (r : Received)
      → nat_eq r.message_type text_message ≡ true
      → decoded_request (decode_inbound codec r.payload) ≡ frame_request codec r
  text_request r text_frame = rw text_frame refl

  other_request :
      (r : Received) → nat_eq r.message_type text_message ≡ false → [] ≡ frame_request codec r
  other_request r other = rw other refl

  renamed :
      {reply request_id request_id' : Str} {n : Node}
      → request_id ≡ request_id'
      → IsAnswered codec a reply request_id n
      → IsAnswered codec a reply request_id' n
  renamed {reply} {request_id} {request_id'} {n} same v =
      subst (λ (q : Str). IsAnswered codec a reply q n) same v

  -- A round that does not end the loop leaves a reply.
  abbrev RepliesOrEnds : Received → Bool → Node × Option Str → Type 0
  RepliesOrEnds r limited q = q.1 ≡ none → IsReplied codec a r limited q.0

  handle_frame-replies :
      (r : Received) (limited : Bool) (n : Node)
      → RepliesOrEnds r limited (handle_frame codec events publish auth a r limited n)
  unfolding handle_frame send_protocol_error
  handle_frame-replies r limited n = elim (Bool-cases (nat_eq r.message_type text_message)) [
    | inl text_frame ↦
        let d = decode_inbound codec r.payload in
        rw (text_frame, handle_frame)
          (λ quiet. record {
            accepted = (handle_decoded codec events publish auth a limited d n).1;
            answered = counted_answers _ _ r.took _ _ _ (
                renamed (text_request r text_frame)
                  (handle_decoded-answers codec events publish auth a limited d n quiet));
            only_commands = λ yes.
                let (free, m, read) =
                  handle_decoded-accepts codec events publish auth a limited d n yes in
                (free, text_frame, m, read);
          })
    | inr other ↦
        rw (other, handle_frame)
          (λ quiet. record {
            accepted = false;
            answered =
                counted_answers _ _ r.took _ _ _
                  (renamed (other_request r other) (replied_answers codec a [] _ false n quiet));
            only_commands = λ yes. absurd cc;
          })
  ]

  -- Counting a frame changes nothing for the limiter.
  rate_limit-counted :
      (at : ℕ) (n : Node)
      → (rate_limit a at (count_metric increment_messages_received n)).1 ≡ (rate_limit a at n).1
  unfolding rate_limit
  rate_limit-counted at n = ground arith

  read_frame-replies :
      (r : Received) (deadline_ok : Bool) (n : Node)
      → RepliesOrEnds r
          (rate_limit a r.at n).1
          (read_frame codec events publish auth a r deadline_ok n)
  unfolding read_frame
  read_frame-replies r deadline_ok n =
      let k = count_metric increment_messages_received n in
      subst
        (λ (l : Bool). RepliesOrEnds r l (read_frame codec events publish auth a r deadline_ok n))
        (rate_limit-counted r.at n)
        (if_cases (RepliesOrEnds r (rate_limit a r.at k).1)
          (ltb 0 (n.client a).read_timeout && not deadline_ok) (λ late quiet. absurd cc)
          (λ fine. handle_frame-replies r _ _))

  end_reading-closes : (reason : Str) (n : Node) → ((end_reading a reason n).client a).closed ≡ true
  unfolding end_reading
  end_reading-closes reason n =
      ap (λ (c : Client). c.closed)
        (close-client a reason (set_client a (record (n.client a) { reading = false }) n) a)
      ∙ ground (arith, nat_eq_iff a a)

  -- A round of the read loop on a frame, whatever it holds and whatever state the session and the
  -- process are in, leaves the session closed or a reply at the end of its queue: an acknowledgement
  -- or an error, with the identifier of the request, as far as it could be read. An acknowledgement
  -- goes only to a text frame that decodes to a valid message and that the rate limiter lets pass.
  pub read_round_lem :
      (r : Received) (deadline_ok : Bool) (n : Node)
      → (n.client a).reading ≡ true
      → let n' = read_round codec events publish auth a r deadline_ok n in
        ((n'.client a).closed ≡ true) ⊎ IsReplied codec a r (rate_limit a r.at n).1 n'
  unfolding read_round
  read_round_lem r deadline_ok n reads =
      elim (Option-cases (read_frame codec events publish auth a r deadline_ok n).1) [
        | inl quiet ↦ inr (rw (reads, quiet, read_round) (read_frame-replies r deadline_ok n quiet))
        | inr (reason, exits) ↦ inl (rw (reads, exits, read_round) (end_reading-closes reason _))
      ]
