-- ===== src/Realtime/Message.antt =====
-- go-server/internal/realtime/message.go: the command and event envelopes, and their validation.
-- The JSON codec of encoding/json and the random source are parameters, gathered in `Codec`.
pub mod Valid
use websocket.Common.{
  ℕ, ◌+◌, ◌/◌, ◌%◌, Bool, false, ◌||◌, not, List, [], ◌∷◌, ◌++◌, Option, none, some, ltb,
  if◌then◌else◌, length, is_empty, nat_eq,
}
use websocket.Text.{Str, ◌==◌, text, trim_space}

abbrev pub room_join : Str
room_join = text "room.join"

abbrev pub room_leave : Str
room_leave = text "room.leave"

abbrev pub room_broadcast : Str
room_broadcast = text "room.broadcast"

abbrev pub private_send : Str
private_send = text "private.send"

abbrev pub connection_ready : Str
connection_ready = text "connection.ready"

abbrev pub command_ack : Str
command_ack = text "command.ack"

abbrev pub event_error : Str
event_error = text "error"

abbrev pub server_draining : Str
server_draining = text "server.draining"

pub data ErrorCode : Type 0 where
  invalid_json invalid_message unsupported_version unknown_message_type : ErrorCode
  unauthorized recipient_offline recipient_overloaded rate_limit_exceeded : ErrorCode

-- A RawMessage is its bytes; SentAt, which nothing reads, is left out.
pub record InboundMessage : Type 0 where
  pub version : Str
  pub type : Str
  pub request_id : Str
  pub room_id : Str
  pub recipient_id : Str
  pub payload : Str

-- The values that the source puts in the field Payload of an OutboundMessage.
pub data EventPayload : Type 0 where
  ready : (connection_id user_id : Str) → EventPayload
  acknowledgement : (status command_type : Str) → EventPayload
  error_payload : (code : ErrorCode) (message : Str) (retryable : Bool) → EventPayload
  broadcast : (room_id sender_id payload : Str) → EventPayload
  private : (sender_id recipient_id payload : Str) → EventPayload
  draining : (message : Str) → EventPayload

pub record OutboundMessage : Type 0 where
  pub version : Str
  pub type : Str
  pub request_id : Str
  pub event_id : Str
  pub payload : EventPayload
  pub sent_at : ℕ

pub record ProtocolError : Type 0 where
  pub code : ErrorCode
  pub message : Str
  pub request_id : Str

-- What the source takes from encoding/json, crypto/rand and the clock.
pub record Codec : Type 0 where
  -- Decode of a json.Decoder into an InboundMessage: the message and the bytes not yet read
  pub decode_message : Str → Option (InboundMessage × Str)
  -- whether the next Decode of a value reports io.EOF
  pub at_eof : Str → Bool
  -- Unmarshal into a map[string]any: whether it succeeds with a map that is not nil
  pub is_object : Str → Bool
  -- Marshal of an envelope
  pub marshal : OutboundMessage → Option Str
  -- the n-th rand.Read of 16 bytes, and the time at the n-th event
  pub random : ℕ → Option (List ℕ)
  -- the texts of the errors of rand.Read, of json.Marshal and of the broker's Publish
  pub random_error : Str
  pub encode_error : Str
  pub publish_error : Str
  pub now : ℕ → ℕ

abbrev invalid_field : Str → Str → ProtocolError
invalid_field request_id message = record {
  code = invalid_message;
  message = message;
  request_id = request_id;
}

abbrev pub empty_message : InboundMessage
empty_message = record {
  version = [];
  type = [];
  request_id = [];
  room_id = [];
  recipient_id = [];
  payload = [];
}

abbrev fail : ErrorCode → Str → Str → Option ProtocolError
fail code request_id message =
    some (record { code = code; message = message; request_id = request_id })

unfoldable pub valid_payload : Codec → Str → Bool
valid_payload codec payload = if is_empty payload then false else codec.is_object payload

-- The switch of Validate over the message type.
unfoldable pub validate_type : Codec → InboundMessage → Str → Option ProtocolError
unfolding valid_payload
validate_type codec m request_id =
    if m.type == room_join
    then if is_empty (trim_space m.room_id)
      then fail invalid_message request_id (text "room_id is required for room.join.")
      else none
    else if m.type == room_leave
    then if is_empty (trim_space m.room_id)
      then fail invalid_message request_id (text "room_id is required for room.leave.")
      else none
    else if m.type == room_broadcast
    then if is_empty (trim_space m.room_id)
      then fail invalid_message request_id (text "room_id is required for room.broadcast.")
      else if not (valid_payload codec m.payload)
      then fail invalid_message request_id
          (text "payload must be a JSON object for room.broadcast.")
      else none
    else if m.type == private_send
    then if is_empty (trim_space m.recipient_id)
      then fail invalid_message request_id (text "recipient_id is required for private.send.")
      else if not (valid_payload codec m.payload)
      then fail invalid_message request_id (text "payload must be a JSON object for private.send.")
      else none
    else fail unknown_message_type request_id (text "The message type is not supported.")

-- The envelope's checks before the switch, and the one after it. `none` is the nil error.
unfoldable pub validate : Codec → InboundMessage → Option ProtocolError
unfolding validate_type
validate codec m =
    let request_id = trim_space m.request_id in
    if not (trim_space m.version == text "1")
    then fail unsupported_version request_id (text "Only protocol version 1 is supported.")
    else if is_empty request_id
    then fail invalid_message [] (text "request_id is required.")
    else if ltb 128 (length request_id)
    then fail invalid_message request_id (text "request_id must not exceed 128 characters.")
    else elim (validate_type codec m request_id) [
      | some e ↦ some e
      | none ↦
          if ltb 256 (length m.room_id) || ltb 256 (length m.recipient_id)
          then fail invalid_message request_id
              (text "routing identifiers must not exceed 256 characters.")
          else none
    ]

-- `len(trimmed) == 0 || trimmed[0] != '{'`, negated.
unfoldable pub starts_object : Str → Bool
starts_object [] = false
starts_object (c ∷ s) = nat_eq c b'{'

pub data Decoded : Type 0 where
  decoded : InboundMessage → Decoded
  rejected : ProtocolError → Decoded

unfoldable pub not_one_object : Decoded
not_one_object = rejected (record {
  code = invalid_json;
  message = text "The message must contain one valid JSON object.";
  request_id = [];
})

unfoldable pub decode_inbound : Codec → Str → Decoded
unfolding starts_object not_one_object
decode_inbound codec payload =
    if not (starts_object (trim_space payload))
    then not_one_object
    else elim (codec.decode_message payload) [
      | none ↦ not_one_object
      | some (message, rest) ↦
          if not (codec.at_eof rest)
          then rejected (record {
            code = invalid_json;
            message = text "The frame must contain exactly one JSON object.";
            request_id = message.request_id;
          })
          else elim (validate codec message) [ some e ↦ rejected e | none ↦ decoded message ]
    ]

-- hex.EncodeToString, for bytes.
hex_digit : ℕ → ℕ
hex_digit n = if ltb n 10 then 48 + n else 87 + n

unfoldable pub hex_encode : List ℕ → Str
unfolding hex_digit
hex_encode [] = []
hex_encode (b ∷ bs) = hex_digit (b / 16) ∷ hex_digit (b % 16) ∷ hex_encode bs

unfoldable pub new_event_id : Codec → ℕ → Option Str
unfolding hex_encode
new_event_id codec n = elim (codec.random n) [
  | none ↦ none
  | some value ↦ some (text "evt_" ++ hex_encode value)
]

-- `n` is the number of envelopes made before.
unfoldable pub new_outbound_message : Codec → ℕ → Str → Str → EventPayload → Option OutboundMessage
unfolding new_event_id
new_outbound_message codec n type request_id payload = elim (new_event_id codec n) [
  | none ↦ none
  | some event_id ↦ some (record {
    version = text "1";
    type = type;
    request_id = request_id;
    event_id = event_id;
    payload = payload;
    sent_at = codec.now n;
  })
]
