-- ===== src/Realtime/Moves/Hub.antt =====
-- The moves of the methods of hub.go that reach sessions or the broker.
use websocket.Common.{
  refl, Bool, true, false, ◌&&◌, not, none, Option, if_cases, Option-cases, inl, inr, List, [], ◌∷◌,
  is_empty,
}
use websocket.Text.{Str, ◌==◌, text}
use websocket.Dict.{lookup}
use websocket.Observability.{
  increment_broker_receive_count, increment_broker_publish_count, increment_broker_publish_errors,
}
use websocket.Broker.Event.{BrokerEvent, EventCodec}
use websocket.Realtime.Message.{
  Codec, OutboundMessage, broadcast, private, room_broadcast, private_send, server_draining,
  draining, new_outbound_message,
}
use websocket.Realtime.Rooms.{ClientRef, HubError, find_client, snapshot}
use websocket.Realtime.Node.{Node}
use websocket.Realtime.Client.{close, send_json, make_event}
use websocket.Realtime.Hub.{
  close_each, close_all, deliver, broadcast_draining, local_broadcast, local_send_private,
  handle_broker_event, publish_event, broadcast_room, send_local, relay_private, send_private,
}
use websocket.Realtime.Moves.{Moves, done, more, one, tallies, closes, makes, ◌then◌}
use websocket.Realtime.Moves.Client.{Moves-send_json}

Moves-close_each :
    (cs : List ClientRef) (reason : Str) (n : Node) → Moves n (close_each cs reason n)
unfolding close_each
Moves-close_each [] reason n = done
Moves-close_each (c ∷ cs) reason n =
    one (closes n c.address reason) then Moves-close_each cs reason (close c.address reason n)

pub Moves-close_all : (reason : Str) (n : Node) → Moves n (close_all reason n)
unfolding close_all
Moves-close_all reason n = Moves-close_each (snapshot n.hub) reason n

module _ (codec : Codec) where
  Moves-deliver :
      (event : OutboundMessage) (cs : List ClientRef) (n : Node)
      → Moves n (deliver codec event cs n)
  unfolding deliver
  Moves-deliver event [] n = done
  Moves-deliver event (c ∷ cs) n =
      Moves-send_json codec c.address event n
      then Moves-deliver event cs (send_json codec c.address event n).0

  pub Moves-broadcast_draining : (n : Node) → Moves n (broadcast_draining codec n)
  unfolding broadcast_draining make_event
  Moves-broadcast_draining n =
      elim (Option-cases (
        new_outbound_message codec n.events server_draining []
          (draining (text "Server is shutting down. Please reconnect.")))) [
            | inl failed ↦ rw (failed, broadcast_draining) (one (makes n))
            | inr (event, made) ↦
                rw (made, broadcast_draining) (one (makes n) then Moves-deliver event _ _)
          ]

  pub Moves-local_broadcast :
      (sender room payload : Str) (n : Node) → Moves n (local_broadcast codec sender room payload n)
  unfolding local_broadcast make_event
  Moves-local_broadcast sender room payload n = elim (Option-cases (lookup room n.hub.rooms)) [
    | inl missing ↦ rw (missing, local_broadcast) done
    | inr (members, found) ↦
        rw (found, local_broadcast)
          (if_cases (Moves n) (is_empty members) (λ e. done)
            λ e.
              elim (Option-cases (
                new_outbound_message codec n.events room_broadcast []
                  (broadcast room sender payload))) [
                    | inl failed ↦ rw (failed, local_broadcast) (one (makes n))
                    | inr (event, made) ↦
                        rw (made, local_broadcast) (one (makes n) then Moves-deliver event _ _)
                  ])
  ]

  pub Moves-local_send_private :
      (sender recipient payload : Str) (n : Node)
      → Moves n (local_send_private codec sender recipient payload n)
  unfolding local_send_private make_event
  Moves-local_send_private sender recipient payload n =
      elim (Option-cases (find_client n.hub recipient)) [
        | inl missing ↦ rw (missing, local_send_private) done
        | inr (c, found) ↦
            elim (Option-cases (
              new_outbound_message codec n.events private_send []
                (private sender recipient payload))) [
                  | inl failed ↦
                      rw (found, local_send_private)
                        (rw (failed, local_send_private) (one (makes n)))
                  | inr (event, made) ↦
                      rw (found, local_send_private)
                        (rw (made, local_send_private)
                          (one (makes n) then Moves-send_json codec c.address event _))
                ]
      ]

  pub Moves-handle_broker_event :
      (event : BrokerEvent) (n : Node) → Moves n (handle_broker_event codec event n)
  unfolding handle_broker_event increment_broker_receive_count
  Moves-handle_broker_event event n =
      let counted = one (tallies n _ refl) in
      if_cases (Moves n) (not (is_empty n.hub.node_id) && event.node_id == n.hub.node_id)
        (λ own. done)
        λ foreign.
          if_cases (Moves n) (event.type == text "room_broadcast")
            (λ e. counted then Moves-local_broadcast event.sender_id event.room_id event.payload _)
            λ e.
              if_cases (Moves n) (event.type == text "private_send")
                (λ e.
                  counted
                  then Moves-local_send_private event.sender_id event.recipient_id event.payload _)
                λ e. counted

  module _ (events : EventCodec) (publish : Str → Str → Node → Node × Bool)
      (relays : (subject bytes : Str) (n : Node) → Moves n (publish subject bytes n).0) where
    Moves-publish_event :
        (subject : Str) (event : BrokerEvent) (n : Node)
        → Moves n (publish_event codec events publish subject event n).0
    unfolding publish_event increment_broker_publish_count increment_broker_publish_errors
    Moves-publish_event subject event n = elim (Option-cases (events.encode event)) [
      | inl failed ↦ rw (failed, publish_event) (one (tallies n _ refl))
      | inr (bytes, made) ↦
          rw (made, publish_event)
            (if_cases (λ (r : Node × Option HubError). Moves n r.0) (publish subject bytes n).1
              (λ ok. more (relays subject bytes n) (tallies _ _ refl))
              (λ bad. more (relays subject bytes n) (tallies _ _ refl)))
    ]

    pub Moves-broadcast_room :
        (sender room payload : Str) (n : Node)
        → Moves n (broadcast_room codec events publish sender room payload n)
    unfolding broadcast_room
    Moves-broadcast_room sender room payload n =
        let local = Moves-local_broadcast sender room payload n in
        if_cases (Moves n) (local_broadcast codec sender room payload n).hub.broker
          (λ set. local then Moves-publish_event _ _ _) (λ unset. local)

    Moves-send_local :
        (sender recipient payload : Str) (c : ClientRef) (n : Node)
        → Moves n (send_local codec sender recipient payload c n).0
    unfolding send_local make_event
    Moves-send_local sender recipient payload c n =
        elim (Option-cases (
          new_outbound_message codec n.events private_send [] (private sender recipient payload))) [
            | inl failed ↦ rw (failed, send_local) (one (makes n))
            | inr (event, made) ↦
                rw (made, send_local) (one (makes n) then Moves-send_json codec c.address event _)
          ]

    Moves-relay_private :
        (has_broker : Bool) (node sender recipient payload : Str) (found : Bool)
        (local_err : Option HubError) (n : Node)
        → Moves n
            (relay_private codec events publish has_broker node sender recipient payload found
              local_err n).0
    unfolding relay_private
    Moves-relay_private has_broker node sender recipient payload found local_err n =
        if_cases (λ (r : Node × Option HubError). Moves n r.0) has_broker
          (λ set. Moves-publish_event _ _ n) (λ unset. done)

    pub Moves-send_private :
        (sender recipient payload : Str) (n : Node)
        → Moves n (send_private codec events publish sender recipient payload n).0
    unfolding send_private
    Moves-send_private sender recipient payload n =
        elim (Option-cases (find_client n.hub recipient)) [
          | inl missing ↦
              rw (missing, send_private)
                (Moves-relay_private n.hub.broker n.hub.node_id sender recipient payload false none
                  n)
          | inr (c, found) ↦
              rw (found, send_private)
                (let sent = send_local codec sender recipient payload c n in
                  let local = Moves-send_local sender recipient payload c n in
                  if_cases (λ (r : Node × Option HubError). Moves n r.0) sent.1
                    (λ made.
                      local
                      then Moves-relay_private n.hub.broker n.hub.node_id sender recipient payload
                          true sent.2 sent.0)
                    (λ failed. local))
        ]
