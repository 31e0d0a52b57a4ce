-- ===== src/Broker/Nats/Tests.antt =====
-- The theorems about the NATS broker, at a client library that hands out numbers as contexts, takes
-- every call, and writes down what is stopped and closed.
use websocket.Common.{ℕ, suc, ◌≡◌, refl, ◌↔◌, inr, true, false, List, [], ◌∷◌, ◌++◌, none}
use websocket.Text.{Str, text}
use websocket.Broker.Nats.{
  JetStream, NatsBroker, publish, subscribe, close_nats_broker, stop_each, start_consuming,
  keep_context, consumer_name, sanitize_consumer_name, is_invalid, new_nats_broker, open_connection,
  open_stream, ensure_stream,
}
use websocket.Broker.Nats.Names.{consumer_name_iff}
use websocket.Broker.Nats.Closing.{subscribes, publishes, nats_run, NatsStep, close-stops}

-- The next context, and what was stopped; 1000 stands for the connection.
abbrev Connection : Type 0
Connection = ℕ × List ℕ

abbrev recording : JetStream Connection
recording = record {
  connect_to = λ url w. (w, none);
  new_jet_stream = λ w. (w, none);
  create_stream = λ name subjects w. (w, none);
  publish_message = λ subject bytes w. (w, none);
  create_consumer = λ config w. (w, none);
  consume = λ name handler w. ((suc w.0, w.1), inr w.0);
  acknowledge = λ message w. w;
  stop = λ context w. (w.0, w.1 ++ context ∷ []);
  close_connection = λ w. (w.0, w.1 ++ 1000 ∷ []);
  is_connected = λ w. true;
}

abbrev ignore : Str → Str → Connection → Connection
ignore subject bytes w = w

abbrev fresh : NatsBroker
fresh = record { node_id = text "a.b"; subs = []; closed = false; sub_seq = 0 }

abbrev two_subscriptions : List (NatsStep Connection)
two_subscriptions =
    subscribes (text "blockforge.>") ignore
    ∷ publishes (text "blockforge.rooms.x") (text "hi")
    ∷ subscribes (text "blockforge.users.>") ignore
    ∷ []

connect_test : (new_nats_broker recording (text "nats://h") (text "a.b") (0, [])).1 ≡ inr fresh
unfolding new_nats_broker open_connection open_stream ensure_stream
connect_test = refl

-- Two identifiers that differ, and share a consumer.
shared_consumer_test :
    consumer_name (text "a.b") (text "blockforge.>")
    ≡ consumer_name (text "a-b") (text "blockforge.>")
unfolding sanitize_consumer_name is_invalid
shared_consumer_test = (consumer_name_iff (text "a.b") (text "a-b") (text "blockforge.>")).1 refl

consumer_name_iff_example :
    (consumer_name (text "a.b") (text "blockforge.>")
      ≡ consumer_name (text "c") (text "blockforge.>"))
    ↔ (sanitize_consumer_name (text "a.b") ≡ sanitize_consumer_name (text "c"))
consumer_name_iff_example = consumer_name_iff (text "a.b") (text "c") (text "blockforge.>")

close-stops_example :
    (close_nats_broker recording
      (nats_run recording two_subscriptions (fresh, (0, []))).0
      (nats_run recording two_subscriptions (fresh, (0, []))).1).1
    ≡ (2, 0 ∷ 1 ∷ 1000 ∷ [])
unfolding publish subscribe start_consuming keep_context stop_each
close-stops_example = close-stops recording two_subscriptions (fresh, (0, [])) refl refl
