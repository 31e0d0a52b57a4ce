-- ===== src/Loadtest/Tests.antt =====
-- The theorems about the load test, at three clients with a concurrency of two.
use websocket.Common.{
  ◌≤◌, ◌≡◌, refl, Bool, nat_eq, true, false, List, [], ◌∷◌, some, none, arith, ◌++◌,
}
use websocket.Text.{Str, text, ◌==◌, trim_space}
use websocket.Dict.{lookup, insert, delete}
use websocket.Integer.Decimal.{decimal}
use websocket.Observability.{add_one}
use websocket.Realtime.Message.{Codec, validate, valid_payload, connection_ready, command_ack}
use websocket.Loadtest.{
  connected, refused, TestStep, starts, dials, greets, joins, ticks, writes, receives, ends_reading,
  stops_writing, new_load_test, test_run, test_step, start_client, dialed, finish, greeted, joined,
  ticked, wrote_message, stops, acknowledged, received, read_ends, record_latency,
}
use websocket.Loadtest.Balance.{IsBalanced}
use websocket.Loadtest.Commands.{request_id, join_message, broadcast_message, validate-loadtest}
use websocket.Loadtest.Run.{test_run-IsBalanced, throttled}

-- A codec that takes what starts with a brace for an object.
abbrev is_braced : Str → Bool
is_braced [] = false
is_braced (c ∷ cs) = nat_eq c b'{'

abbrev test_codec : Codec
test_codec = record {
  decode_message = λ s. none;
  at_eof = λ s. true;
  is_object = is_braced;
  marshal = λ event. some event.type;
  random = λ n. none;
  random_error = text "no entropy";
  encode_error = text "no json";
  publish_error = text "no broker";
  now = λ n. 7;
}

abbrev first_payload : Str
first_payload = text "{\"seq\":1,\"uuid\":\"client_0\"}"

-- Two clients get a token, one of them is refused at the and the third then starts.
abbrev messages : List TestStep
messages =
    starts 0
    ∷ starts 1
    ∷ starts 2
    ∷ dials 0 connected
    ∷ greets 0 (some connection_ready)
    ∷ joins 0 true true
    ∷ ticks 0 5000
    ∷ writes 0 true
    ∷ receives 0 command_ack (request_id 0 1) 9000
    ∷ []

abbrev leaving : List TestStep
leaving = dials 1 refused ∷ starts 2 ∷ ends_reading 0 ∷ stops_writing 0 ∷ []

test_run-IsBalanced_example : IsBalanced (test_run (new_load_test 3 2 true) (messages ++ leaving))
test_run-IsBalanced_example = test_run-IsBalanced 3 2 true (messages ++ leaving)

throttled_example : (test_run (new_load_test 3 2 true) messages).stats.connections_attempted ≤ 2
unfolding new_load_test test_run test_step start_client dialed finish greeted joined ticked
    wrote_message stops acknowledged received read_ends record_latency add_one lookup insert delete
    ◌==◌ request_id decimal
throttled_example = throttled 3 2 true messages (omega arith) refl

acknowledged_once : (test_run (new_load_test 3 2 true) messages).stats.messages_acked ≡ 1
unfolding new_load_test test_run test_step start_client dialed finish greeted joined ticked
    wrote_message stops acknowledged received read_ends record_latency add_one lookup insert delete
    ◌==◌ request_id decimal
acknowledged_once = refl

third_starts :
    (test_run (new_load_test 3 2 true) (messages ++ leaving)).stats.connections_attempted ≡ 3
unfolding new_load_test test_run test_step start_client dialed finish greeted joined ticked
    wrote_message stops acknowledged received read_ends record_latency add_one lookup insert delete
    ◌==◌ request_id decimal
third_starts = refl

validate-loadtest_example :
    (validate test_codec (join_message 0) ≡ none)
    × (validate test_codec (broadcast_message 0 1 first_payload) ≡ none)
unfolding valid_payload trim_space
validate-loadtest_example =
    validate-loadtest test_codec 0 1 first_payload (omega arith) (omega arith) refl
