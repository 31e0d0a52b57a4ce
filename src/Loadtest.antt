-- ===== src/Loadtest.antt =====
-- go-server/cmd/loadtest/main.go: the load test, its clients and their statistics. A client is its
-- number. How each call of the network ended, what was read and when are arguments of its steps, so
-- that any order of the steps of all clients is a schedule. The flags, the prints and the report are
-- left out.
pub mod Statistics
pub mod Commands
pub mod Balance
pub mod Accounts
pub mod Connecting
pub mod Messaging
pub mod Run
pub mod Latency
mod Tests
use websocket.Common.{
  ℕ, suc, ◌+◌, ◌-◌, ◌/◌, ◌%◌, ◌^◌, Bool, true, false, ◌&&◌, ◌||◌, not, List, [], ◌∷◌, Option, none,
  some, ltb, nat_eq, if◌then◌else◌,
}
use websocket.Text.{Str, ◌==◌, text}
use websocket.Dict.{Dict, lookup, insert, delete}
use websocket.Observability.{add_one}
use websocket.Realtime.Message.{connection_ready, command_ack, room_broadcast, event_error}
use websocket.Loadtest.Commands.{request_id}
pub use websocket.Loadtest.Statistics.{Stats, new_stats}
unfoldable pub use websocket.Loadtest.Statistics.{record_latency}

-- Where a client is: before the throttle, at Dial, reading connection.ready, joining, in its loops,
-- or past runClient.
pub data Stage : Type 0 where
  waiting dialing greeting joining running done : Stage

-- `pending`: a time is recorded for a message that is not written yet. `reading`: the reader's loop
-- runs. `stopped`: the reader has ended and has cancelled readCtx.
pub record Worker : Type 0 where
  pub stage : Stage
  pub msg_seq : ℕ
  pub sent_times : Dict ℕ
  pub pending : Bool
  pub reading : Bool
  pub stopped : Bool

abbrev pub new_worker : Worker
new_worker = record {
  stage = waiting;
  msg_seq = 0;
  sent_times = [];
  pending = false;
  reading = false;
  stopped = false;
}

-- `slots`: the tokens in the channel `throttle`. `sends`: whether the rate is positive.
pub record LoadTest : Type 0 where
  pub worker : ℕ → Worker
  pub num_clients : ℕ
  pub concurrency : ℕ
  pub sends : Bool
  pub slots : ℕ
  pub cancelled : Bool
  pub stats : Stats

unfoldable pub new_load_test : (num_clients concurrency : ℕ) → Bool → LoadTest
new_load_test num_clients concurrency sends = record {
  worker = λ i. new_worker;
  num_clients = num_clients;
  concurrency = concurrency;
  sends = sends;
  slots = 0;
  cancelled = false;
  stats = new_stats;
}

abbrev pub set_worker : ℕ → Worker → LoadTest → LoadTest
set_worker i w t = record t { worker = λ j. if nat_eq j i then w else t.worker j }

abbrev pub count_stat : (Stats → Stats) → LoadTest → LoadTest
count_stat f t = record t { stats = f t.stats }

abbrev pub is_stage : Stage → Stage → Bool
is_stage waiting waiting = true
is_stage dialing dialing = true
is_stage greeting greeting = true
is_stage joining joining = true
is_stage running running = true
is_stage done done = true
is_stage _ _ = false

-- runClient returns: the deferred calls release the slot.
unfoldable pub finish : ℕ → LoadTest → LoadTest
finish i t = record (set_worker i (record (t.worker i) { stage = done }) t) { slots = t.slots - 1 }

abbrev pub advance : ℕ → Stage → LoadTest → LoadTest
advance i stage t = set_worker i (record (t.worker i) { stage = stage }) t

-- The goroutine gets its token, and enters runClient.
unfoldable pub start_client : ℕ → LoadTest → LoadTest
unfolding add_one
start_client i t =
    if ltb i t.num_clients && is_stage (t.worker i).stage waiting && ltb t.slots t.concurrency
    then count_stat (λ s. record s { connections_attempted = add_one s.connections_attempted })
        (record (advance i dialing t) { slots = suc t.slots })
    else t

-- How url.Parse and Dial ended.
pub data Dial : Type 0 where
  bad_url refused connected : Dial

unfoldable pub dialed : ℕ → Dial → LoadTest → LoadTest
unfolding add_one
dialed i outcome t =
    let failed =
      count_stat (λ s. record s { connection_errors = add_one s.connection_errors }) (finish i t) in
    if is_stage (t.worker i).stage dialing
    then (elim outcome [
      | connected ↦
          count_stat (λ s. record s { connections_established = add_one s.connections_established })
            (advance i greeting t)
      | _ ↦ failed
    ])
    else t

-- The type of the first event, if one could be read.
unfoldable pub greeted : ℕ → Option Str → LoadTest → LoadTest
greeted i type t =
    if is_stage (t.worker i).stage greeting
    then (elim type [
      | none ↦ finish i t
      | some type' ↦ if type' == connection_ready then advance i joining t else finish i t
    ])
    else t

-- Whether the join was written, and whether an answer, whatever it is, was read.
unfoldable pub joined : ℕ → (wrote answered : Bool) → LoadTest → LoadTest
joined i wrote answered t =
    if is_stage (t.worker i).stage joining
    then if wrote && answered
      then set_worker i (record (t.worker i) { stage = running; reading = true }) t
      else finish i t
    else t

-- A tick of the writer: the time of the next message is recorded.
unfoldable pub ticked : ℕ → (now : ℕ) → LoadTest → LoadTest
ticked i now t =
    let w = t.worker i in
    if is_stage w.stage running && t.sends && not w.pending
    then set_worker i
        (record w {
          msg_seq = suc w.msg_seq;
          sent_times = insert (request_id i (suc w.msg_seq)) now w.sent_times;
          pending = true;
        })
        t
    else t

-- The rest of the tick: the message is counted and written.
unfoldable pub wrote_message : ℕ → (ok : Bool) → LoadTest → LoadTest
unfolding add_one
wrote_message i ok t =
    let w = t.worker i in
    let t' =
      count_stat (λ s. record s { messages_sent = add_one s.messages_sent })
        (set_worker i (record w { pending = false }) t) in
    if is_stage w.stage running && w.pending then (if ok then t' else finish i t') else t

-- The writer sees readCtx done.
unfoldable pub stops : ℕ → LoadTest → LoadTest
stops i t =
    let w = t.worker i in
    if is_stage w.stage running && not w.pending && (t.cancelled || w.stopped)
    then finish i t
    else t

-- An acknowledgement; a request that is not known is ignored.
unfoldable pub acknowledged : ℕ → Str → (now : ℕ) → LoadTest → LoadTest
unfolding add_one
acknowledged i request now t =
    let w = t.worker i in
    elim (lookup request w.sent_times) [
      | none ↦ t
      | some sent ↦
          count_stat
            (λ s.
              record_latency ((now - sent) / 1000)
                (record s { messages_acked = add_one s.messages_acked }))
            (set_worker i (record w { sent_times = delete request w.sent_times }) t)
    ]

-- The reader's switch over the type of a message, with its request_id, "" if it has none.
unfoldable pub received : ℕ → (type request : Str) → (now : ℕ) → LoadTest → LoadTest
unfolding add_one
received i type request now t =
    if not (t.worker i).reading
    then t
    else if type == command_ack
    then acknowledged i request now t
    else if type == room_broadcast
    then count_stat (λ s. record s { broadcasts_received = add_one s.broadcasts_received }) t
    else if type == event_error
    then count_stat (λ s. record s { errors_received = add_one s.errors_received }) t
    else t

-- The reader's ReadJSON fails.
unfoldable pub read_ends : ℕ → LoadTest → LoadTest
read_ends i t =
    if (t.worker i).reading
    then set_worker i (record (t.worker i) { reading = false; stopped = true }) t
    else t

pub data TestStep : Type 0 where
  starts stops_writing ends_reading : ℕ → TestStep
  dials : ℕ → Dial → TestStep
  greets : ℕ → Option Str → TestStep
  joins : ℕ → (wrote answered : Bool) → TestStep
  ticks : ℕ → (now : ℕ) → TestStep
  writes : ℕ → (ok : Bool) → TestStep
  receives : ℕ → (type request : Str) → (now : ℕ) → TestStep
  cancels : TestStep

unfoldable pub test_step : LoadTest → TestStep → LoadTest
test_step t (starts i) = start_client i t
test_step t (dials i outcome) = dialed i outcome t
test_step t (greets i type) = greeted i type t
test_step t (joins i wrote answered) = joined i wrote answered t
test_step t (ticks i now) = ticked i now t
test_step t (writes i ok) = wrote_message i ok t
test_step t (stops_writing i) = stops i t
test_step t (receives i type request now) = received i type request now t
test_step t (ends_reading i) = read_ends i t
test_step t cancels = record t { cancelled = true }

unfoldable pub test_run : LoadTest → List TestStep → LoadTest
test_run t [] = t
test_run t (x ∷ xs) = test_run (test_step t x) xs
