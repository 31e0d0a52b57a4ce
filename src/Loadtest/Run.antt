-- ===== src/Loadtest/Run.antt =====
-- go-server/cmd/loadtest/main.go: the accounts and the throttle in every schedule.
use websocket.Common.{
  ◌∙◌, ap, ℕ, zero, suc, ◌^◌, ◌≤◌, ◌<◌, ◌≡◌, refl, Bool, List, [], ◌∷◌, arith, none, some, ap, ◌∙◌,
  subst, sym,
}
use websocket.Text.{Str}
use websocket.Dict.{lookup}
use websocket.Loadtest.{
  stops, wrote_message, ticked, joined, greeted, dialed, finish, start_client, Worker, new_worker,
  LoadTest, new_load_test, TestStep, test_step, test_run, starts, bad_url, refused, connected,
  start_client, finish, dialed, greeted, joined, ticked, wrote_message, stops, received,
  acknowledged, read_ends, stops_writing, ends_reading, dials, greets, joins, ticks, writes,
  receives, cancels,
}
use websocket.Loadtest.Balance.{
  total, holding, ended, undecided, outstanding, unwritten, IsBalanced,
}
use websocket.Loadtest.Accounts.{IsAccounted}
use websocket.Loadtest.Connecting.{
  start_client-IsAccounted, dialed-IsAccounted, greeted-IsAccounted, joined-IsAccounted,
}
use websocket.Loadtest.Messaging.{
  ticked-IsAccounted, wrote_message-IsAccounted, stops-IsAccounted, received-IsAccounted,
  read_ends-IsAccounted,
}

test_step-IsAccounted : (x : TestStep) (t : LoadTest) → IsAccounted t → IsAccounted (test_step t x)
unfolding test_step
test_step-IsAccounted (starts i) t v = start_client-IsAccounted i t v
test_step-IsAccounted (dials i outcome) t v = dialed-IsAccounted i outcome t v
test_step-IsAccounted (greets i type) t v = greeted-IsAccounted i type t v
test_step-IsAccounted (joins i wrote answered) t v = joined-IsAccounted i wrote answered t v
test_step-IsAccounted (ticks i now) t v = ticked-IsAccounted i now t v
test_step-IsAccounted (writes i ok) t v = wrote_message-IsAccounted i ok t v
test_step-IsAccounted (stops_writing i) t v = stops-IsAccounted i t v
test_step-IsAccounted (receives i type request now) t v =
    received-IsAccounted i type request now t v
test_step-IsAccounted (ends_reading i) t v = read_ends-IsAccounted i t v
test_step-IsAccounted cancels t v = record {
  balanced = record {
    slots_held = v.balanced.slots_held;
    limited = v.balanced.limited;
    attempts = v.balanced.attempts;
    outcomes = v.balanced.outcomes;
    answers = v.balanced.answers;
    measured = v.balanced.measured;
    outside = v.balanced.outside;
  };
  known = v.known;
}

test_run-IsAccounted :
    (xs : List TestStep) (t : LoadTest) → IsAccounted t → IsAccounted (test_run t xs)
unfolding test_run
test_run-IsAccounted [] t v = v
test_run-IsAccounted (x ∷ xs) t v =
    test_run-IsAccounted xs (test_step t x) (test_step-IsAccounted x t v)

total-new :
    (measure : Worker → ℕ) (k : ℕ) → measure new_worker ≡ 0 → total measure (λ i. new_worker) k ≡ 0
total-new measure zero none_yet = refl
total-new measure (suc k) none_yet = omega (arith, total-new measure k none_yet)

new_load_test-IsAccounted :
    (num_clients concurrency : ℕ) (sends : Bool)
    → IsAccounted (new_load_test num_clients concurrency sends)
unfolding new_load_test lookup
new_load_test-IsAccounted n concurrency sends = record {
  balanced = record {
    slots_held = omega (arith, total-new holding n refl);
    limited = omega arith;
    attempts = omega (arith, total-new ended n refl);
    outcomes = omega (arith, total-new undecided n refl);
    answers = omega (arith, total-new unwritten n refl, total-new outstanding n refl);
    measured = refl;
    outside = λ i above. refl;
  };
  known = λ i. record { distinct = tt; named = λ key sent e. cc };
}

run-IsAccounted :
    (num_clients concurrency : ℕ) (sends : Bool) (xs : List TestStep)
    → IsAccounted (test_run (new_load_test num_clients concurrency sends) xs)
run-IsAccounted n concurrency sends xs =
    test_run-IsAccounted xs _ (new_load_test-IsAccounted n concurrency sends)

-- However the goroutines of the load test interleave, whatever the network does and whatever the
-- servers send, its accounts balance after every step, modulo 2^64: the tokens taken are the clients
-- inside runClient and at most the concurrency; the attempts are those clients and the ended ones, and
-- also the established connections, the failures and the dials still going on; a message that was sent
-- has been acknowledged, once, with one latency, or has its time recorded.
pub test_run-IsBalanced :
    (num_clients concurrency : ℕ) (sends : Bool) (xs : List TestStep)
    → IsBalanced (test_run (new_load_test num_clients concurrency sends) xs)
test_run-IsBalanced n concurrency sends xs = (run-IsAccounted n concurrency sends xs).balanced

-- What no step changes.
abbrev limits : LoadTest → ℕ × ℕ
limits t = (t.num_clients, t.concurrency)

acknowledged-limits :
    (i : ℕ) (request : Str) (now : ℕ) (t : LoadTest)
    → limits (acknowledged i request now t) ≡ limits t
unfolding acknowledged
acknowledged-limits i request now t = ground arith

test_step-limits : (x : TestStep) (t : LoadTest) → limits (test_step t x) ≡ limits t
unfolding test_step start_client finish dialed greeted joined ticked wrote_message stops received
    read_ends
test_step-limits (starts i) t = ground arith
test_step-limits (dials i bad_url) t = ground arith
test_step-limits (dials i refused) t = ground arith
test_step-limits (dials i connected) t = ground arith
test_step-limits (greets i none) t = ground arith
test_step-limits (greets i (some type)) t = ground arith
test_step-limits (joins i wrote answered) t = ground arith
test_step-limits (ticks i now) t = ground arith
test_step-limits (writes i ok) t = ground arith
test_step-limits (stops_writing i) t = ground arith
test_step-limits (receives i type request now) t =
    ground (arith, acknowledged-limits i request now t)
test_step-limits (ends_reading i) t = ground arith
test_step-limits cancels t = refl

test_run-limits : (xs : List TestStep) (t : LoadTest) → limits (test_run t xs) ≡ limits t
unfolding test_run
test_run-limits [] t = refl
test_run-limits (x ∷ xs) t = test_run-limits xs (test_step t x) ∙ test_step-limits x t

attempts_limited :
    (t : LoadTest)
    → IsBalanced t
    → t.concurrency < 2 ^ 64
    → total ended t.worker t.num_clients ≡ 0
    → t.stats.connections_attempted ≤ t.concurrency
attempts_limited t b small none_ended = omega (arith, b.attempts, b.limited)

-- The throttle does not only bound the connections that are being established: as long as no client
-- has ended, no more clients than the concurrency have attempted a connection.
pub throttled :
    (num_clients concurrency : ℕ) (sends : Bool) (xs : List TestStep)
    → concurrency < 2 ^ 64
    → total ended (test_run (new_load_test num_clients concurrency sends) xs).worker num_clients ≡ 0
    → (test_run (new_load_test num_clients concurrency sends) xs).stats.connections_attempted
      ≤ concurrency
unfolding new_load_test
throttled n concurrency sends xs small none_ended =
    let t = test_run (new_load_test n concurrency sends) xs in
    let same = test_run-limits xs (new_load_test n concurrency sends) in
    let slots = ap (λ (l : ℕ × ℕ). l.1) same in
    let ended_none =
      subst (λ (k : ℕ). total ended t.worker k ≡ 0) (sym (ap (λ (l : ℕ × ℕ). l.0) same))
        none_ended in
    let bounded =
      attempts_limited t (test_run-IsBalanced n concurrency sends xs) (omega (arith, slots))
        ended_none in
    omega (arith, slots, bounded)
