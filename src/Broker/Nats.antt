-- ===== src/Broker/Nats.antt =====
-- go-server/internal/broker/nats.go: the broker over NATS JetStream. The client library is a
-- parameter: its calls change a world W, which the handlers change too. An error is its text, and a
-- ConsumeContext is a number. The options of Connect that only log, the policies and ages, which are
-- constants, and the logger are left out.
pub mod Names
pub mod Closing
mod Tests
use websocket.Common.{
  ℕ, suc, Bool, true, false, not, ◌||◌, ◌⊎◌, inl, inr, List, [], ◌∷◌, ◌++◌, Option, none, some,
  nat_eq, if◌then◌else◌,
}
use websocket.Text.{Str, text}

pub record ConsumerConfig : Type 0 where
  pub name : Str
  pub durable : Str
  pub filter_subject : Str

pub record JetStreamMessage : Type 0 where
  pub message_id : ℕ
  pub message_subject : Str
  pub message_data : Str

-- The calls of the client library.
pub record JetStream {ℓ} (W : Type ℓ) : Type ℓ where
  pub connect_to : Str → W → W × Option Str
  pub new_jet_stream : W → W × Option Str
  pub create_stream : Str → List Str → W → W × Option Str
  pub publish_message : Str → Str → W → W × Option Str
  pub create_consumer : ConsumerConfig → W → W × Option Str
  pub consume : Str → (JetStreamMessage → W → W) → W → W × (Str ⊎ ℕ)
  pub acknowledge : ℕ → W → W
  pub stop : ℕ → W → W
  pub close_connection : W → W
  pub is_connected : W → Bool

pub record NatsBroker : Type 0 where
  pub node_id : Str
  pub subs : List ℕ
  pub closed : Bool
  pub sub_seq : ℕ

pub data NatsError : Type 0 where
  broker_closed : NatsError
  client_error : Str → NatsError

abbrev pub stream_name : Str
stream_name = text "BLOCKFORGE"

abbrev pub stream_subjects : Str
stream_subjects = text "blockforge.>"

abbrev pub consumer_prefix : Str
consumer_prefix = text "blockforge-node-"

-- The characters that are replaced.
unfoldable pub is_invalid : ℕ → Bool
is_invalid ch = nat_eq ch b'.' || nat_eq ch b'>' || nat_eq ch b'*' || nat_eq ch b' '

unfoldable pub sanitize_consumer_name : Str → Str
sanitize_consumer_name [] = []
sanitize_consumer_name (ch ∷ name) =
    (if is_invalid ch then b'-' else ch) ∷ sanitize_consumer_name name

-- The name under which a node subscribes to a subject.
unfoldable pub consumer_name : Str → Str → Str
consumer_name node subject = sanitize_consumer_name (consumer_prefix ++ node ++ text "-" ++ subject)

unfoldable pub consumer_config : Str → Str → ConsumerConfig
consumer_config node subject = record {
  name = consumer_name node subject;
  durable = consumer_name node subject;
  filter_subject = subject;
}

-- What is appended to `subs`, and what Subscribe returns, once Consume is over.
unfoldable pub keep_context : NatsBroker → Str ⊎ ℕ → NatsBroker × (NatsError ⊎ ℕ)
keep_context b (inl message) = (b, inl (client_error message))
keep_context b (inr context) = (record b { subs = b.subs ++ context ∷ [] }, inr context)

abbrev pub as_error : Option Str → Option NatsError
as_error none = none
as_error (some message) = some (client_error message)

module _ {ℓ} {W : Type ℓ} (js : JetStream W) where
  -- The last of the three calls that NewNATSBroker makes: a failure closes the connection.
  unfoldable pub ensure_stream : Str → W × Option Str → W × (NatsError ⊎ NatsBroker)
  ensure_stream node (w, some message) = (js.close_connection w, inl (client_error message))
  ensure_stream node (w, none) =
      (w, inr (record { node_id = node; subs = []; closed = false; sub_seq = 0 }))

  unfoldable pub open_stream : Str → W × Option Str → W × (NatsError ⊎ NatsBroker)
  open_stream node (w, some message) = (js.close_connection w, inl (client_error message))
  open_stream node (w, none) =
      ensure_stream node (js.create_stream stream_name (stream_subjects ∷ []) w)

  unfoldable pub open_connection : Str → W × Option Str → W × (NatsError ⊎ NatsBroker)
  open_connection node (w, some message) = (w, inl (client_error message))
  open_connection node (w, none) = open_stream node (js.new_jet_stream w)

  unfoldable pub new_nats_broker : Str → Str → W → W × (NatsError ⊎ NatsBroker)
  new_nats_broker url node w = open_connection node (js.connect_to url w)

  unfoldable pub publish : Str → Str → NatsBroker → W → W × Option NatsError
  publish subject data_bytes b w =
      if b.closed
      then (w, some broker_closed)
      else (let (w', failed) = js.publish_message subject data_bytes w in (w', as_error failed))

  -- The callback that Consume is given.
  unfoldable pub on_delivery : (Str → Str → W → W) → JetStreamMessage → W → W
  on_delivery handler msg w =
      js.acknowledge msg.message_id (handler msg.message_subject msg.message_data w)

  unfoldable pub start_consuming :
      (Str → Str → W → W) → NatsBroker → Str → W × Option Str → (NatsBroker × W) × (NatsError ⊎ ℕ)
  start_consuming handler b name (w, some message) = ((b, w), inl (client_error message))
  start_consuming handler b name (w, none) =
      let (w', started) = js.consume name (on_delivery handler) w in
      let (b', result) = keep_context b started in ((b', w'), result)

  -- The number stands for the function that stops the consumer.
  unfoldable pub subscribe :
      Str → (Str → Str → W → W) → NatsBroker → W → (NatsBroker × W) × (NatsError ⊎ ℕ)
  subscribe subject handler b w =
      let config = consumer_config b.node_id subject in
      if b.closed
      then ((b, w), inl broker_closed)
      else start_consuming handler (record b { sub_seq = suc b.sub_seq }) config.name
          (js.create_consumer config w)

  unfoldable pub ready : NatsBroker → W → Bool
  ready b w = if b.closed then false else js.is_connected w

  unfoldable pub stop_each : List ℕ → W → W
  stop_each [] w = w
  stop_each (sub ∷ subs) w = stop_each subs (js.stop sub w)

  unfoldable pub close_nats_broker : NatsBroker → W → NatsBroker × W
  close_nats_broker b w =
      if b.closed
      then (b, w)
      else (record b { closed = true; subs = [] }, js.close_connection (stop_each b.subs w))
