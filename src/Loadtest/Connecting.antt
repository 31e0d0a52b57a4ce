-- ===== src/Loadtest/Connecting.antt =====
-- go-server/cmd/loadtest/main.go: the throttle, the dial and the join keep the accounts.
use websocket.Common.{ℕ, suc, ◌≡◌, refl, Bool, true, ◌&&◌, arith, none, some, Option, if_cases, ltb}
use websocket.Text.{Str, ◌==◌}
use websocket.Observability.{add_one}
use websocket.Realtime.Message.{connection_ready}
use websocket.Loadtest.{
  joined, greeted, waiting, dialing, greeting, joining, LoadTest, Dial, bad_url, refused, connected,
  set_worker, is_stage, finish, start_client, dialed,
}
use websocket.Loadtest.Balance.{set_worker-IsBalanced}
use websocket.Loadtest.Accounts.{
  IsAccounted, started_below, set_worker-IsKnown, staged, finish-IsAccounted, goes-IsAccounted,
  leave-IsAccounted,
}

pub start_client-IsAccounted :
    (i : ℕ) (t : LoadTest) → IsAccounted t → IsAccounted (start_client i t)
unfolding start_client add_one
start_client-IsAccounted i t v =
    if_cases IsAccounted
      (ltb i t.num_clients && is_stage (t.worker i).stage waiting && ltb t.slots t.concurrency)
      (λ free.
        let b = v.balanced in
        record {
          balanced =
              set_worker-IsBalanced t i (suc t.slots) (record (t.worker i) { stage = dialing })
                (record t.stats { connections_attempted = add_one t.stats.connections_attempted })
                (ground arith) (ground arith) (ground arith) (ground arith) (ground arith)
                (ground arith) refl b.measured b;
          known = set_worker-IsKnown t i _ v.known (staged i (t.worker i) dialing (v.known i));
        })
      (λ busy. v)

dial_failed :
    (i : ℕ) (t : LoadTest)
    → is_stage (t.worker i).stage dialing ≡ true
    → IsAccounted t
    → IsAccounted (record (finish i t) {
      stats = record t.stats { connection_errors = add_one t.stats.connection_errors };
    })
unfolding add_one
dial_failed i t here v =
    finish-IsAccounted t i _ (started_below t i v.balanced (ground arith)) (ground arith)
      (ground arith) v

pub dialed-IsAccounted :
    (i : ℕ) (outcome : Dial) (t : LoadTest) → IsAccounted t → IsAccounted (dialed i outcome t)
unfolding dialed finish add_one
dialed-IsAccounted i bad_url t v =
    if_cases IsAccounted (is_stage (t.worker i).stage dialing) (λ here. dial_failed i t here v)
      (λ elsewhere. v)
dialed-IsAccounted i refused t v =
    if_cases IsAccounted (is_stage (t.worker i).stage dialing) (λ here. dial_failed i t here v)
      (λ elsewhere. v)
dialed-IsAccounted i connected t v =
    if_cases IsAccounted (is_stage (t.worker i).stage dialing) (λ here. connects here)
      (λ elsewhere. v)
  where
    connects :
        is_stage (t.worker i).stage dialing ≡ true
        → IsAccounted (record (set_worker i (record (t.worker i) { stage = greeting }) t) {
          stats = record t.stats {
            connections_established = add_one t.stats.connections_established;
          };
        })
    connects here =
        goes-IsAccounted t i _ _ (started_below t i v.balanced (ground arith)) (ground arith)
          (ground arith) refl (ground arith) refl v.balanced.measured
          (staged i (t.worker i) greeting (v.known i)) v

pub greeted-IsAccounted :
    (i : ℕ) (type : Option Str) (t : LoadTest) → IsAccounted t → IsAccounted (greeted i type t)
unfolding greeted
greeted-IsAccounted i none t v =
    if_cases IsAccounted (is_stage (t.worker i).stage greeting)
      (λ here.
        leave-IsAccounted t i (started_below t i v.balanced (ground arith)) (ground arith)
          (ground arith) v)
      (λ elsewhere. v)
greeted-IsAccounted i (some type) t v =
    if_cases IsAccounted (is_stage (t.worker i).stage greeting)
      (λ here.
        let below = started_below t i v.balanced (ground arith) in
        if_cases IsAccounted (type == connection_ready)
          (λ ready.
            goes-IsAccounted t i _ t.stats below (ground arith) (ground arith) refl (ground arith)
              refl v.balanced.measured (staged i (t.worker i) joining (v.known i)) v)
          (λ other. leave-IsAccounted t i below (ground arith) (ground arith) v))
      (λ elsewhere. v)

pub joined-IsAccounted :
    (i : ℕ) (wrote answered : Bool) (t : LoadTest)
    → IsAccounted t
    → IsAccounted (joined i wrote answered t)
unfolding joined
joined-IsAccounted i wrote answered t v =
    if_cases IsAccounted (is_stage (t.worker i).stage joining)
      (λ here.
        let below = started_below t i v.balanced (ground arith) in
        if_cases IsAccounted (wrote && answered)
          (λ ready.
            goes-IsAccounted t i _ t.stats below (ground arith) (ground arith) refl (ground arith)
              refl v.balanced.measured
              (record { distinct = (v.known i).distinct; named = (v.known i).named }) v)
          (λ other. leave-IsAccounted t i below (ground arith) (ground arith) v))
      (λ elsewhere. v)
