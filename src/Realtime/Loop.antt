-- ===== src/Realtime/Loop.antt =====
-- go-server/internal/realtime/client.go (Run, readLoop, writeLoop) and
-- go-server/internal/app/session_handler.go: the life of a session. One round of a loop is one step,
-- so a schedule of steps interleaves the loops of all sessions with the closing of any of them.
use websocket.Common.{
  ◌^◌, ◌%◌, ℕ, ◌*◌, ◌/◌, Bool, true, false, ◌&&◌, ◌||◌, not, List, [], ◌∷◌, none, some, ltb,
  if◌then◌else◌,
}
use websocket.Text.{Str, text}
use websocket.Observability.{increment_messages_sent}
use websocket.Broker.Event.{BrokerEvent, EventCodec}
use websocket.Realtime.Message.{Codec}
use websocket.Realtime.RateLimit.{new_rate_limiter}
use websocket.Realtime.Rooms.{Authorizer}
use websocket.Realtime.Node.{Node, set_client, count_metric}
use websocket.Realtime.Client.{ClientOptions, new_client, close, send_json, ready_event}
use websocket.Realtime.Hub.{register, close_all, broadcast_draining, handle_broker_event}
use websocket.Realtime.Session.{Received, read_frame}

-- Why ReadMessage failed: a close error 1009, a timeout, or anything else.
pub data ReadFailure : Type 0 where
  too_big timed_out other : ReadFailure

-- How a round of the write loop ended: WriteMessage succeeded, it failed, or SetWriteDeadline did.
pub data WriteOutcome : Type 0 where
  wrote failed no_deadline : WriteOutcome

-- The settings of config.Config that realtimeSessionHandler reads.
pub record SessionConfig : Type 0 where
  pub outbound_queue_capacity : ℕ
  pub websocket_read_timeout : ℕ
  pub websocket_write_timeout : ℕ
  pub websocket_max_message_size : ℕ
  pub rate_limit_messages : ℕ
  pub rate_limit_interval : ℕ

-- `d * 9 / 10` of a Duration, an int64: a product that wraps to a negative number counts as 0.
unfoldable pub nine_tenths : ℕ → ℕ
nine_tenths d = let product = d * 9 % 2 ^ 64 in if ltb product (2 ^ 63) then product / 10 else 0

-- The options that Handle gives to NewClient; `now` is the time at which the limiter is made.
unfoldable pub session_options : SessionConfig → Str → Str → ℕ → ClientOptions
session_options cfg connection_id user_id now = record {
  connection_id = connection_id;
  user_id = user_id;
  queue_capacity = cfg.outbound_queue_capacity;
  read_timeout = cfg.websocket_read_timeout;
  write_timeout = cfg.websocket_write_timeout;
  has_on_close = true;
  has_hub = true;
  ping_interval = nine_tenths cfg.websocket_read_timeout;
  max_message_size = cfg.websocket_max_message_size;
  limiter =
      if ltb 0 cfg.rate_limit_messages && ltb 0 cfg.rate_limit_interval
      then some (new_rate_limiter cfg.rate_limit_messages cfg.rate_limit_interval now)
      else none;
}

-- Register of Handle.
unfoldable pub register_session : ℕ → Node → Node
register_session a n =
    register (n.client a).self (set_client a (record (n.client a) { registered = true }) n)

abbrev set_reading : ℕ → Bool → Node → Node
set_reading a b n = set_client a (record (n.client a) { reading = b }) n

-- The read loop has returned `reason`, and Run closes the session with it.
unfoldable pub end_reading : ℕ → Str → Node → Node
end_reading a reason n = close a reason (set_reading a false n)

unfoldable pub read_failure_reason : ReadFailure → ℕ → Str
read_failure_reason too_big ping_interval = text "oversized_message"
read_failure_reason timed_out ping_interval =
    if ltb 0 ping_interval then text "heartbeat_timeout" else text "read_failed"
read_failure_reason other ping_interval = text "read_failed"

-- The deadline and the write of a round: `sent` is the node if the write succeeds. SetWriteDeadline
-- is called only where there is a write timeout.
unfoldable pub after_write : ℕ → WriteOutcome → (sent n : Node) → Node
after_write a wrote sent n = sent
after_write a failed sent n = close a (text "write_failed") n
after_write a no_deadline sent n =
    if ltb 0 (n.client a).write_timeout then close a (text "write_deadline_failed") n else sent

-- A round of writeLoop with a pending frame. A closed session's loop has returned.
unfoldable pub write_frame : ℕ → WriteOutcome → Node → Node
write_frame a outcome n =
    let c = n.client a in
    if c.closed then n else elim c.send [
      | [] ↦ n
      | frame ∷ rest ↦
          let n' = set_client a (record c { send = rest }) n in
          after_write a outcome (count_metric increment_messages_sent n') n'
    ]

-- A round of writeLoop on a tick of the ping timer.
unfoldable pub write_ping : ℕ → WriteOutcome → Node → Node
write_ping a outcome n =
    if (n.client a).closed
    then n
    else if ltb 0 (n.client a).ping_interval
    then after_write a outcome n n
    else n

-- readLoop up to its first round: where there is a read timeout, the deadline that SetReadDeadline sets.
abbrev start_reading : ℕ → (read_timeout : ℕ) → (deadline_ok : Bool) → Node → Node
start_reading a read_timeout deadline_ok n =
    if ltb 0 read_timeout && not deadline_ok
    then close a (text "read_deadline_failed") n
    else set_reading a true n

module _ (codec : Codec) where
  -- Run up to the read loop; `deadline_ok` is whether its first SetReadDeadline succeeds.
  unfoldable pub start_run : ℕ → Bool → Node → Node
  start_run a deadline_ok n =
      let (n', made) = ready_event codec a n in
      elim made [
        | none ↦ close a (text "event_id_failed") n'
        | some event ↦
            let (n'', sent) = send_json codec a event n' in
            if not sent
            then close a (text "ready_queue_unavailable") n''
            else start_reading a (n.client a).read_timeout deadline_ok n''
      ]

module _ (codec : Codec) (events : EventCodec) (publish : Str → Str → Node → Node × Bool)
    (auth : Authorizer) where
  -- A round of readLoop in which ReadMessage returns a frame.
  unfoldable pub read_round : ℕ → Received → Bool → Node → Node
  read_round a r deadline_ok n =
      if (n.client a).reading
      then (let (n', exit) = read_frame codec events publish auth a r deadline_ok n in
          elim exit [ none ↦ n' | some reason ↦ end_reading a reason n' ])
      else n

  -- A round of readLoop in which ReadMessage fails.
  unfoldable pub read_failed : ℕ → ReadFailure → Node → Node
  read_failed a failure n =
      if (n.client a).reading
      then end_reading a (read_failure_reason failure (n.client a).ping_interval) n
      else n

  -- One step of the process, and of its environment. Handle makes a session, registers it and runs
  -- it, in this order; nobody else knows a session that is not registered, so it is open when it is.
  pub data Step : Type 0 where
    creates : SessionConfig → (connection_id user_id : Str) → (now : ℕ) → Step
    registers : ℕ → Step
    starts : ℕ → Bool → Step
    reads : ℕ → Received → Bool → Step
    fails : ℕ → ReadFailure → Step
    writes pings : ℕ → WriteOutcome → Step
    closes : ℕ → Str → Step
    receives : BrokerEvent → Step
    drains : Step
    closes_all : Str → Step

  unfoldable pub step : Node → Step → Node
  step n (creates cfg conn user now) = new_client (session_options cfg conn user now) n
  step n (registers a) =
      let c = n.client a in if c.closed || c.registered then n else register_session a n
  step n (starts a ok) = if (n.client a).registered then start_run codec a ok n else n
  step n (reads a r ok) = read_round a r ok n
  step n (fails a failure) = read_failed a failure n
  step n (writes a outcome) = write_frame a outcome n
  step n (pings a outcome) = write_ping a outcome n
  step n (closes a reason) = close a reason n
  step n (receives event) = handle_broker_event codec event n
  step n drains = broadcast_draining codec n
  step n (closes_all reason) = close_all reason n

  unfoldable pub run : Node → List Step → Node
  run n [] = n
  run n (s ∷ ss) = run (step n s) ss
