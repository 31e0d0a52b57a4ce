-- ===== src/Loadtest/Messaging.antt =====
-- go-server/cmd/loadtest/main.go: the writer's and the reader's loop keep the accounts.
use websocket.Common.{
  ℕ, suc, ◌<◌, ◌≡◌, refl, sym, ap, Bool, true, false, ◌&&◌, ◌||◌, not, arith, if_cases, Bool-cases,
  Option-cases, inl, inr,
}
use native.Mathlib.Decide.{dec_lt}
use websocket.Text.{Str, ==_iff, ◌==◌}
use websocket.Dict.{
  lookup, insert, delete, KeysDistinct-insert, KeysDistinct-delete, lookup-insert, lookup-delete,
  length-insert, length-delete,
}
use websocket.Observability.{add_one}
use websocket.Loadtest.Commands.{request_id}
use websocket.Realtime.Message.{command_ack, room_broadcast, event_error}
use websocket.Loadtest.{
  stops, received, wrote_message, acknowledged, read_ends, ticked, running, Worker, LoadTest,
  is_stage, record_latency,
}
use websocket.Loadtest.Balance.{ended, IsBalanced}
use websocket.Loadtest.Accounts.{
  IsKnown, IsAccounted, next_absent, started_below, goes-IsAccounted, leave-IsAccounted,
}

-- Recording the time of the next message.
next-IsKnown :
    (i now : ℕ) (w : Worker)
    → IsKnown i w
    → IsKnown i (record w {
      msg_seq = suc w.msg_seq;
      sent_times = insert (request_id i (suc w.msg_seq)) now w.sent_times;
      pending = true;
    })
next-IsKnown i now w v =
    let next = request_id i (suc w.msg_seq) in
    record {
      distinct = KeysDistinct-insert next now w.sent_times v.distinct;
      named = λ key sent e. elim (Bool-cases (next == key)) [
        | inl new ↦ (suc w.msg_seq, omega arith, sym ((==_iff next key).0 new))
        | inr old ↦
            let (k, low, same) =
              v.named key sent (ground (arith, lookup-insert next key now w.sent_times)) in
            (k, omega arith, same)
      ];
    }

pub ticked-IsAccounted : (i now : ℕ) (t : LoadTest) → IsAccounted t → IsAccounted (ticked i now t)
unfolding ticked
ticked-IsAccounted i now t v =
    let w = t.worker i in
    if_cases IsAccounted (is_stage w.stage running && t.sends && not w.pending)
      (λ here.
        let absent = next_absent i w (v.known i) in
        let longer = length-insert {0} (request_id i (suc w.msg_seq)) now w.sent_times in
        goes-IsAccounted t i _ t.stats (started_below t i v.balanced (ground arith)) refl refl refl
          refl (ground arith) v.balanced.measured (next-IsKnown i now w (v.known i)) v)
      (λ elsewhere. v)

pub wrote_message-IsAccounted :
    (i : ℕ) (ok : Bool) (t : LoadTest) → IsAccounted t → IsAccounted (wrote_message i ok t)
unfolding wrote_message add_one
wrote_message-IsAccounted i ok t v =
    let w = t.worker i in
    if_cases IsAccounted (is_stage w.stage running && w.pending)
      (λ here.
        let below = started_below t i v.balanced (ground arith) in
        let sent =
          goes-IsAccounted t i (record w { pending = false })
            (record t.stats { messages_sent = add_one t.stats.messages_sent }) below refl refl refl
            refl (ground arith) v.balanced.measured
            (record { distinct = (v.known i).distinct; named = (v.known i).named }) v in
        if_cases IsAccounted ok (λ fine. sent)
          (λ failed. leave-IsAccounted _ i below (ground arith) (ground arith) sent))
      (λ elsewhere. v)

pub stops-IsAccounted : (i : ℕ) (t : LoadTest) → IsAccounted t → IsAccounted (stops i t)
unfolding stops
stops-IsAccounted i t v =
    let w = t.worker i in
    if_cases IsAccounted (is_stage w.stage running && not w.pending && (t.cancelled || w.stopped))
      (λ here.
        leave-IsAccounted t i (started_below t i v.balanced (ground arith)) (ground arith)
          (ground arith) v)
      (λ elsewhere. v)

-- Only a client reads.
reader_below :
    (t : LoadTest) (i : ℕ) → IsBalanced t → (t.worker i).reading ≡ true → i < t.num_clients
reader_below t i v reads = elim (dec_lt i t.num_clients) [
  | yes below ↦ below
  | no above ↦
      let first = ap (λ (w : Worker). w.reading) (v.outside i (omega (arith, above))) in absurd cc
]

pub read_ends-IsAccounted : (i : ℕ) (t : LoadTest) → IsAccounted t → IsAccounted (read_ends i t)
unfolding read_ends
read_ends-IsAccounted i t v =
    if_cases IsAccounted (t.worker i).reading
      (λ reads.
        goes-IsAccounted t i _ t.stats (reader_below t i v.balanced reads) refl refl refl refl refl
          v.balanced.measured
          (record { distinct = (v.known i).distinct; named = (v.known i).named }) v)
      (λ ended. v)

-- Taking the time of an acknowledged message out.
taken-IsKnown :
    (i : ℕ) (request : Str) (w : Worker)
    → IsKnown i w
    → IsKnown i (record w { sent_times = delete request w.sent_times })
taken-IsKnown i request w v = record {
  distinct = KeysDistinct-delete request w.sent_times v.distinct;
  named = λ key sent e. v.named key sent (ground (arith, lookup-delete request key w.sent_times));
}

acknowledged-IsAccounted :
    (i : ℕ) (request : Str) (now : ℕ) (t : LoadTest)
    → (t.worker i).reading ≡ true
    → IsAccounted t
    → IsAccounted (acknowledged i request now t)
unfolding acknowledged record_latency add_one
acknowledged-IsAccounted i request now t reads v =
    let w = t.worker i in
    elim (Option-cases (lookup request w.sent_times)) [
      | inl unknown ↦ rw (unknown, acknowledged) v
      | inr (sent, found) ↦
          let fewer = length-delete {0} request sent w.sent_times (v.known i).distinct found in
          rw (found, acknowledged)
            (goes-IsAccounted t i _ _ (reader_below t i v.balanced reads) refl refl refl refl
              (omega (arith, fewer)) (ap add_one v.balanced.measured)
              (taken-IsKnown i request w (v.known i)) v)
    ]

-- A change of a statistic that is in no account.
unaccounted :
    (t : LoadTest) (broadcasts errors : ℕ)
    → IsAccounted t
    → IsAccounted (record t {
      stats = record t.stats { broadcasts_received = broadcasts; errors_received = errors };
    })
unaccounted t broadcasts errors v =
    let b = v.balanced in
    record {
      balanced = record {
        slots_held = b.slots_held;
        limited = b.limited;
        attempts = b.attempts;
        outcomes = b.outcomes;
        answers = b.answers;
        measured = b.measured;
        outside = b.outside;
      };
      known = v.known;
    }

pub received-IsAccounted :
    (i : ℕ) (type request : Str) (now : ℕ) (t : LoadTest)
    → IsAccounted t
    → IsAccounted (received i type request now t)
unfolding received
received-IsAccounted i type request now t v = elim (Bool-cases (t.worker i).reading) [
  | inr ended ↦ rw (ended, received) v
  | inl reads ↦
      rw (reads, received)
        (if_cases IsAccounted (type == command_ack)
          (λ e. acknowledged-IsAccounted i request now t reads v)
          λ e.
            if_cases IsAccounted (type == room_broadcast)
              (λ e. unaccounted t _ t.stats.errors_received v)
              λ e.
                if_cases IsAccounted (type == event_error)
                  (λ e. unaccounted t t.stats.broadcasts_received _ v) λ e. v)
]
