-- ===== src/Realtime/Moves/Session.antt =====
-- The moves of the loops of a session, and of every step of the process.
use websocket.Common.{
  ℕ, ◌<◌, ◌≡◌, refl, Bool, true, false, ◌&&◌, not, Option, if_cases, Option-cases, inl, inr, arith,
  ltb, nat_eq, if◌then◌else◌,
}
use websocket.Text.{Str, ◌==◌}
use websocket.Observability.{
  increment_inbound_type, increment_inbound_result, record_processing_latency,
  increment_messages_received, Metrics,
}
use websocket.Broker.Event.{EventCodec}
use websocket.Realtime.Message.{
  Codec, InboundMessage, Decoded, decoded, rejected, decode_inbound, room_join, room_leave,
  room_broadcast, private_send,
}
use websocket.Realtime.Rooms.{Authorizer, join, leave, authorize_broadcast}
use websocket.Realtime.Node.{count_metric, Node, set_hub}
use websocket.Realtime.Client.{send_acknowledgement, send_error, send_protocol_error, text_message}
use websocket.Realtime.Hub.{send_private}
use websocket.Realtime.Session.{
  Received, Handled, reply_error, handle_join, handle_leave, handle_broadcast, handle_private,
  handle_command, handle_decoded, count_inbound, handle_frame, read_frame, rate_limit,
}
use websocket.Realtime.Moves.{Moves, done, more, one, tallies, joins, leaves, limits, ◌then◌}
use websocket.Realtime.Moves.Client.{Moves-send_event}
use websocket.Realtime.Moves.Hub.{Moves-broadcast_room, Moves-send_private}

-- The counters of one inbound frame leave active_connections alone.
increment_inbound_type_active :
    (type : Str) (m : Metrics)
    → (increment_inbound_type type m).active_connections ≡ m.active_connections
unfolding increment_inbound_type
increment_inbound_type_active type m = ground arith

Moves-count_inbound :
    {n : Node} (k : Node) (took : ℕ) (type : Str) (success : Bool)
    → Moves n k
    → Moves n (count_inbound took type success k)
unfolding count_inbound increment_inbound_result record_processing_latency
Moves-count_inbound k took type true r = more r (tallies k _ (increment_inbound_type_active type _))
Moves-count_inbound k took type false r =
    more r (tallies k _ (increment_inbound_type_active type _))

module _ (codec : Codec) (events : EventCodec) (publish : Str → Str → Node → Node × Bool)
    (auth : Authorizer)
    (relays : (subject bytes : Str) (n : Node) → Moves n (publish subject bytes n).0) where
  Moves-handle_join :
      (a : ℕ) (m : InboundMessage) (n : Node)
      → a < n.next
      → Moves n (handle_join codec events publish auth a m n).0
  unfolding handle_join reply_error send_error send_acknowledgement
  Moves-handle_join a m n below =
      let joined = one (joins n auth a m.room_id below) in
      if_cases (λ (r : Handled). Moves n r.0) (n.client a).has_hub
        (λ has. elim (Option-cases (join auth n.hub (n.client a).self m.room_id).1) [
          | inl ok ↦ rw (ok, handle_join) (joined then Moves-send_event codec a _ _ _ _)
          | inr (e, refused) ↦
              rw (refused, handle_join) (joined then Moves-send_event codec a _ _ _ _)
        ])
        (λ nil. Moves-send_event codec a _ _ _ n)

  Moves-handle_leave :
      (a : ℕ) (m : InboundMessage) (n : Node)
      → Moves n (handle_leave codec events publish auth a m n).0
  unfolding handle_leave send_acknowledgement
  Moves-handle_leave a m n =
      let left : Moves n (
          if (n.client a).has_hub then set_hub (leave n.hub (n.client a).self m.room_id) n else n) =
        if_cases (Moves n) (n.client a).has_hub (λ has. one (leaves n a m.room_id)) (λ nil. done) in
      left then Moves-send_event codec a _ _ _ _

  Moves-handle_broadcast :
      (a : ℕ) (m : InboundMessage) (n : Node)
      → Moves n (handle_broadcast codec events publish auth a m n).0
  unfolding handle_broadcast reply_error send_error send_acknowledgement
  Moves-handle_broadcast a m n =
      if_cases (λ (r : Handled). Moves n r.0) (n.client a).has_hub
        (λ has. elim (Option-cases (authorize_broadcast auth n.hub (n.client a).self m.room_id)) [
          | inl ok ↦
              rw (ok, handle_broadcast)
                (Moves-broadcast_room codec events publish relays _ _ _ n
                  then Moves-send_event codec a _ _ _ _)
          | inr (e, refused) ↦ rw (refused, handle_broadcast) (Moves-send_event codec a _ _ _ n)
        ])
        (λ nil. Moves-send_event codec a _ _ _ n)

  Moves-handle_private :
      (a : ℕ) (m : InboundMessage) (n : Node)
      → Moves n (handle_private codec events publish auth a m n).0
  unfolding handle_private reply_error send_error send_acknowledgement
  Moves-handle_private a m n =
      let user = (n.client a).self.user_id in
      let sent = Moves-send_private codec events publish relays user m.recipient_id m.payload n in
      if_cases (λ (r : Handled). Moves n r.0) (n.client a).has_hub
        (λ has. elim (Option-cases (auth.authorize_private_send user m.recipient_id)) [
          | inr (e, refused) ↦ rw (refused, handle_private) (Moves-send_event codec a _ _ _ n)
          | inl ok ↦
              elim (Option-cases
                (send_private codec events publish user m.recipient_id m.payload n).1) [
                  | inl fine ↦
                      rw (ok, handle_private)
                        (rw (fine, handle_private) (sent then Moves-send_event codec a _ _ _ _))
                  | inr (e, failed) ↦
                      rw (ok, handle_private)
                        (rw (failed, handle_private) (sent then Moves-send_event codec a _ _ _ _))
                ]
        ])
        (λ nil. Moves-send_event codec a _ _ _ n)

  Moves-handle_command :
      (a : ℕ) (m : InboundMessage) (n : Node)
      → a < n.next
      → Moves n (handle_command codec events publish auth a m n).0
  unfolding handle_command send_acknowledgement
  Moves-handle_command a m n below =
      let P = λ (r : Handled). Moves n r.0 in
      if_cases P (m.type == room_join) (λ e. Moves-handle_join a m n below)
        λ e.
          if_cases P (m.type == room_leave) (λ e. Moves-handle_leave a m n)
            λ e.
              if_cases P (m.type == room_broadcast) (λ e. Moves-handle_broadcast a m n)
                λ e.
                  if_cases P (m.type == private_send) (λ e. Moves-handle_private a m n)
                    λ e. Moves-send_event codec a _ _ _ n

  Moves-handle_decoded :
      (a : ℕ) (limited : Bool) (d : Decoded) (n : Node)
      → a < n.next
      → Moves n (handle_decoded codec events publish auth a limited d n).0
  unfolding handle_decoded send_error send_protocol_error
  Moves-handle_decoded a true (decoded m) n below = Moves-send_event codec a _ _ _ n
  Moves-handle_decoded a false (decoded m) n below = Moves-handle_command a m n below
  Moves-handle_decoded a true (rejected e) n below = Moves-send_event codec a _ _ _ n
  Moves-handle_decoded a false (rejected e) n below = Moves-send_event codec a _ _ _ n

  Moves-handle_frame :
      (a : ℕ) (r : Received) (limited : Bool) (n : Node)
      → a < n.next
      → Moves n (handle_frame codec events publish auth a r limited n).0
  unfolding handle_frame send_protocol_error
  Moves-handle_frame a r limited n below =
      if_cases (λ (r : Node × Option Str). Moves n r.0) (not (nat_eq r.message_type text_message))
        (λ binary. Moves-count_inbound _ r.took _ _ (Moves-send_event codec a _ _ _ n))
        (λ is_text.
          Moves-count_inbound _ r.took _ _
            (Moves-handle_decoded a limited (decode_inbound codec r.payload) n below))

  Moves-rate_limit : (a at : ℕ) (n : Node) → Moves n (rate_limit a at n).0
  unfolding rate_limit
  Moves-rate_limit a at n = elim (Option-cases (n.client a).limiter) [
    | inl unlimited ↦ rw (unlimited, rate_limit) done
    | inr (rl, found) ↦ rw (found, rate_limit) (one (limits n a _))
  ]

  rate_limit-next : (a at : ℕ) (n : Node) → (rate_limit a at n).0.next ≡ n.next
  unfolding rate_limit
  rate_limit-next a at n = ground arith

  pub Moves-read_frame :
      (a : ℕ) (r : Received) (deadline_ok : Bool) (n : Node)
      → a < n.next
      → Moves n (read_frame codec events publish auth a r deadline_ok n).0
  unfolding read_frame increment_messages_received
  Moves-read_frame a r deadline_ok n below =
      let counted = one (tallies n _ refl) in
      let limited = counted then Moves-rate_limit a r.at _ in
      if_cases (λ (r : Node × Option Str). Moves n r.0)
        (ltb 0 (n.client a).read_timeout && not deadline_ok) (λ late. limited)
        (λ in_time.
          limited
          then Moves-handle_frame a r _ _
              (rw (rate_limit-next a r.at (count_metric increment_messages_received n)) below))
