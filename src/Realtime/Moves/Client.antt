-- ===== src/Realtime/Moves/Client.antt =====
-- The moves of the methods of client.go that send and close.
use websocket.Common.{
  false, true, ◌≡◌, ℕ, Bool, ltb, Option-cases, if_cases, inl, inr, length, arith,
}
use websocket.Text.{Str}
use websocket.Observability.{update_max_queue_depth}
use websocket.Realtime.Message.{Codec, OutboundMessage, EventPayload, new_outbound_message}
use websocket.Realtime.Node.{Node}
use websocket.Realtime.Client.{send, send_json, send_event}
use websocket.Realtime.Moves.{Moves, done, more, one, tallies, enqueues, closes, makes, ◌then◌}

pub Moves-send : (a type : ℕ) (payload : Str) (n : Node) → Moves n (send a type payload n).0
unfolding send update_max_queue_depth
Moves-send a type payload n =
    if_cases (λ (r : Node × Bool). Moves n r.0) (n.client a).closed (λ gone. done)
      λ alive.
        if_cases (λ (r : Node × Bool). Moves n r.0)
          (ltb (length (n.client a).send) (n.client a).queue_capacity)
          (λ room. more (one (enqueues n a _ alive (ground arith))) (tallies _ _ (ground arith)))
          (λ full. one (closes n a _))

module _ (codec : Codec) where
  pub Moves-send_json :
      (a : ℕ) (event : OutboundMessage) (n : Node) → Moves n (send_json codec a event n).0
  unfolding send_json
  Moves-send_json a event n = elim (Option-cases (codec.marshal event)) [
    | inl failed ↦ rw (failed, send_json) (one (closes n a _))
    | inr (payload, made) ↦ rw (made, send_json) (Moves-send a 1 payload n)
  ]

  pub Moves-send_event :
      (a : ℕ) (type request_id : Str) (payload : EventPayload) (n : Node)
      → Moves n (send_event codec a type request_id payload n).0
  unfolding send_event
  Moves-send_event a type request_id payload n =
      elim (Option-cases (new_outbound_message codec n.events type request_id payload)) [
        | inl failed ↦ rw (failed, send_event) (more (one (makes n)) (closes _ a _))
        | inr (event, made) ↦ rw (made, send_event) (one (makes n) then Moves-send_json a event _)
      ]

  -- A session that has taken an event is open.
  pub send_json-open :
      (a : ℕ) (event : OutboundMessage) (n : Node)
      → (send_json codec a event n).1 ≡ true
      → ((send_json codec a event n).0.client a).closed ≡ false
  unfolding send_json send
  send_json-open a event n sent = ground arith
