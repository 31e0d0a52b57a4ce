-- ===== src/Realtime/Moves/Loop.antt =====
-- The moves of every step of the process.
use websocket.Common.{
  ℕ, ◌+◌, ◌<◌, ◌≡◌, refl, Bool, true, false, ◌&&◌, ◌||◌, not, if_cases, Option-cases, inl, inr,
  List, [], ◌∷◌, arith, ltb, if◌then◌else◌,
}
use websocket.Text.{Str}
use websocket.Observability.{increment_messages_sent}
use websocket.Broker.Event.{EventCodec}
use websocket.Realtime.Message.{Codec, connection_ready, ready, new_outbound_message}
use websocket.Realtime.Rooms.{Authorizer}
use websocket.Realtime.Node.{Node, Frame, set_client, count_metric}
use websocket.Realtime.Client.{close, ready_event, make_event, send_json}
use websocket.Realtime.Session.{Received, read_frame}
use websocket.Realtime.Loop.{
  ReadFailure, WriteOutcome, wrote, failed, no_deadline, session_options, end_reading, after_write,
  write_frame, write_ping, start_run, read_round, read_failed, Step, starts, reads, fails, writes,
  pings, closes, receives, drains, closes_all, step,
}
use websocket.Realtime.Moves
use websocket.Realtime.Moves.{Moves, done, more, one, tallies, dequeues, phases, makes, ◌then◌}
use websocket.Realtime.Moves.Client.{Moves-send_json, send_json-open}
use websocket.Realtime.Moves.Hub.{
  Moves-close_all, Moves-broadcast_draining, Moves-handle_broker_event,
}
use websocket.Realtime.Moves.Session.{Moves-read_frame}

Moves-close : (a : ℕ) (reason : Str) (n : Node) → Moves n (close a reason n)
Moves-close a reason n = one (Moves.closes n a reason)

Moves-end_reading : (a : ℕ) (reason : Str) (n : Node) → Moves n (end_reading a reason n)
unfolding end_reading
Moves-end_reading a reason n = one (phases n a false (λ e. cc)) then Moves-close a reason _

Moves-after_write :
    {n : Node} (a : ℕ) (outcome : WriteOutcome) (sent m : Node)
    → Moves n sent
    → Moves n m
    → Moves n (after_write a outcome sent m)
unfolding after_write
Moves-after_write a wrote sent m r q = r
Moves-after_write a failed sent m r q = q then Moves-close a _ m
Moves-after_write {n} a no_deadline sent m r q =
    if_cases (Moves n) (ltb 0 (m.client a).write_timeout) (λ t. q then Moves-close a _ m) (λ u. r)

Moves-write_frame : (a : ℕ) (outcome : WriteOutcome) (n : Node) → Moves n (write_frame a outcome n)
unfolding write_frame increment_messages_sent
Moves-write_frame a outcome n =
    if_cases (Moves n) (n.client a).closed (λ gone. done) λ alive. pending (n.client a).send refl
  where
    pending :
        (queue : List Frame)
        → (n.client a).send ≡ queue
        → Moves n (elim queue [
          | [] ↦ n
          | frame ∷ rest ↦
              let n' = set_client a (record (n.client a) { send = rest }) n in
              after_write a outcome (count_metric increment_messages_sent n') n'
        ])
    pending [] e = done
    pending (frame ∷ rest) e =
        let taken = one (dequeues n a frame rest e) in
        Moves-after_write a outcome _ _ (more taken (tallies _ _ refl)) taken

Moves-write_ping : (a : ℕ) (outcome : WriteOutcome) (n : Node) → Moves n (write_ping a outcome n)
unfolding write_ping
Moves-write_ping a outcome n =
    if_cases (Moves n) (n.client a).closed (λ gone. done)
      λ alive.
        if_cases (Moves n) (ltb 0 (n.client a).ping_interval)
          (λ on. Moves-after_write a outcome n n done done) (λ off. done)

module _ (codec : Codec) where
  Moves-start_run :
      (a : ℕ) (deadline_ok : Bool) (n : Node) → Moves n (start_run codec a deadline_ok n)
  unfolding start_run ready_event make_event
  Moves-start_run a deadline_ok n =
      let c = (n.client a).self in
      elim (Option-cases (
        new_outbound_message codec n.events connection_ready []
          (ready c.connection_id c.user_id))) [
            | inl unmade ↦ rw (unmade, start_run) (one (makes n) then Moves-close a _ _)
            | inr (event, made) ↦
                rw (made, start_run)
                  (let sent = one (makes n) then Moves-send_json codec a event _ in
                    if_cases (Moves n)
                      (not (send_json codec a event (record n { events = n.events + 1 })).1)
                      (λ refused. sent then Moves-close a _ _)
                      λ accepted.
                        if_cases (Moves n) (ltb 0 (n.client a).read_timeout && not deadline_ok)
                          (λ late. sent then Moves-close a _ _)
                          (λ in_time.
                            sent
                            then one (
                                phases _ a true
                                  (λ e. send_json-open codec a event _ (ground arith)))))
          ]

module _ (codec : Codec) (events : EventCodec) (publish : Str → Str → Node → Node × Bool)
    (auth : Authorizer)
    (relays : (subject bytes : Str) (n : Node) → Moves n (publish subject bytes n).0) where
  Moves-read_round :
      (a : ℕ) (r : Received) (deadline_ok : Bool) (n : Node)
      → ((n.client a).reading ≡ true → a < n.next)
      → Moves n (read_round codec events publish auth a r deadline_ok n)
  unfolding read_round
  Moves-read_round a r deadline_ok n readers =
      if_cases (Moves n) (n.client a).reading
        (λ on.
          let handled =
            Moves-read_frame codec events publish auth relays a r deadline_ok n (readers on) in
          elim (Option-cases (read_frame codec events publish auth a r deadline_ok n).1) [
            | inl goes_on ↦ rw (goes_on, read_round) handled
            | inr (reason, ends) ↦ rw (ends, read_round) (handled then Moves-end_reading a reason _)
          ])
        (λ off. done)

  Moves-read_failed :
      (a : ℕ) (failure : ReadFailure) (n : Node)
      → Moves n (read_failed codec events publish auth a failure n)
  unfolding read_failed
  Moves-read_failed a failure n =
      if_cases (Moves n) (n.client a).reading (λ on. Moves-end_reading a _ n) (λ off. done)

  -- A step is a sequence of moves where only sessions that exist are in their read loops, and open
  -- sessions unregister themselves.
  pub Moves-step :
      (n : Node) (s : Step codec events publish auth)
      → ((a : ℕ) → (n.client a).reading ≡ true → a < n.next)
      → ((a : ℕ) → (n.client a).closed ≡ false → (n.client a).has_on_close ≡ true)
      → Moves n (step codec events publish auth n s)
  unfolding step session_options
  Moves-step n (Step.creates cfg conn user now) readers callbacks = one (Moves.creates n _ refl)
  Moves-step n (Step.registers a) readers callbacks =
      if_cases (Moves n) ((n.client a).closed || (n.client a).registered) (λ known. done)
        (λ new. one (Moves.registers n a (ground arith) (callbacks a (ground arith))))
  Moves-step n (starts a ok) readers callbacks =
      if_cases (Moves n) (n.client a).registered (λ known. Moves-start_run codec a ok n)
        (λ new. done)
  Moves-step n (reads a r ok) readers callbacks = Moves-read_round a r ok n (readers a)
  Moves-step n (fails a failure) readers callbacks = Moves-read_failed a failure n
  Moves-step n (writes a outcome) readers callbacks = Moves-write_frame a outcome n
  Moves-step n (pings a outcome) readers callbacks = Moves-write_ping a outcome n
  Moves-step n (closes a reason) readers callbacks = Moves-close a reason n
  Moves-step n (receives event) readers callbacks = Moves-handle_broker_event codec event n
  Moves-step n drains readers callbacks = Moves-broadcast_draining codec n
  Moves-step n (closes_all reason) readers callbacks = Moves-close_all reason n
