-- ===== src/Realtime/Message/Valid.antt =====
-- go-server/internal/realtime/message.go: which commands Validate and decodeInbound accept.
use websocket.Common.{
  ◌≤◌, ◌≡◌, ◌≢◌, ◌↔◌, refl, true, [], none, some, arith, length, is_empty_iff, Bool-cases,
  Option-cases, inl, inr,
}
use websocket.Text.{Str, ◌==◌, ==_iff, text, trim_space}
use websocket.Realtime.Message.{
  Codec, InboundMessage, not_one_object, validate, validate_type, valid_payload, decode_inbound,
  decoded, room_join, room_leave, room_broadcast, private_send, starts_object,
}

-- What the type of a command asks of its other fields.
pub data IsRoutable (codec : Codec) (m : InboundMessage) : Type 0 where
  joins : m.type ≡ room_join → trim_space m.room_id ≢ [] → IsRoutable codec m
  leaves : m.type ≡ room_leave → trim_space m.room_id ≢ [] → IsRoutable codec m
  broadcasts :
      m.type ≡ room_broadcast
      → trim_space m.room_id ≢ []
      → valid_payload codec m.payload ≡ true
      → IsRoutable codec m
  sends :
      m.type ≡ private_send
      → trim_space m.recipient_id ≢ []
      → valid_payload codec m.payload ≡ true
      → IsRoutable codec m

validate_type-none :
    (codec : Codec) (m : InboundMessage) (request_id : Str)
    → validate_type codec m request_id ≡ none
    → IsRoutable codec m
unfolding validate_type
validate_type-none codec m request_id h = elim (Bool-cases (m.type == room_join)) [
  | inl e ↦
      joins ((==_iff m.type room_join).0 e)
        (λ p. ground (arith, is_empty_iff (trim_space m.room_id)))
  | inr e1 ↦ elim (Bool-cases (m.type == room_leave)) [
    | inl e ↦
        leaves ((==_iff m.type room_leave).0 e)
          (λ p. ground (arith, is_empty_iff (trim_space m.room_id)))
    | inr e2 ↦ elim (Bool-cases (m.type == room_broadcast)) [
      | inl e ↦
          broadcasts ((==_iff m.type room_broadcast).0 e)
            (λ p. ground (arith, is_empty_iff (trim_space m.room_id))) (ground arith)
      | inr e3 ↦ elim (Bool-cases (m.type == private_send)) [
        | inl e ↦
            sends ((==_iff m.type private_send).0 e)
              (λ p. ground (arith, is_empty_iff (trim_space m.recipient_id))) (ground arith)
        | inr e4 ↦ absurd (ground arith)
      ]
    ]
  ]
]

validate_type-ok :
    (codec : Codec) (m : InboundMessage) (request_id : Str)
    → IsRoutable codec m
    → validate_type codec m request_id ≡ none
unfolding validate_type ◌==◌
validate_type-ok codec m request_id (joins e room) =
    rw e (ground (arith, is_empty_iff (trim_space m.room_id)))
validate_type-ok codec m request_id (leaves e room) =
    rw e (ground (arith, is_empty_iff (trim_space m.room_id)))
validate_type-ok codec m request_id (broadcasts e room payload) =
    rw e (ground (arith, is_empty_iff (trim_space m.room_id)))
validate_type-ok codec m request_id (sends e recipient payload) =
    rw e (ground (arith, is_empty_iff (trim_space m.recipient_id)))

-- What a valid command is.
pub record IsValid (codec : Codec) (m : InboundMessage) : Type 0 where
  pub version : trim_space m.version ≡ text "1"
  pub requested : trim_space m.request_id ≢ []
  pub short_request : length (trim_space m.request_id) ≤ 128
  pub routable : IsRoutable codec m
  pub short_room : length m.room_id ≤ 256
  pub short_recipient : length m.recipient_id ≤ 256

-- Validate accepts exactly the valid commands: protocol version 1, a request id of 1 to 128 bytes, the
-- fields that the type asks for, and routing identifiers of at most 256 bytes.
pub validate_iff :
    (codec : Codec) (m : InboundMessage) → (validate codec m ≡ none) ↔ IsValid codec m
unfolding validate
validate_iff codec m =
    let request_id = trim_space m.request_id in
    (
      λ h. record {
        version = ground (arith, ==_iff (trim_space m.version) (text "1"));
        requested = λ p. ground (arith, is_empty_iff request_id);
        short_request = ground arith;
        routable = validate_type-none codec m request_id (ground arith);
        short_room = ground arith;
        short_recipient = ground arith;
      },
      λ v.
          let routed = validate_type-ok codec m request_id v.routable in
          let known = v.version in
          let short = v.short_request in
          let room = v.short_room in
          let recipient = v.short_recipient in
          let named = v.requested in
          rw (routed, validate)
            (ground (arith, ==_iff (trim_space m.version) (text "1"), is_empty_iff request_id)),
    )

module _ (codec : Codec) (payload : Str) (m : InboundMessage) where
  decoded_command :
      decode_inbound codec payload ≡ decoded m
      → (starts_object (trim_space payload) ≡ true)
        × (rest : Str) × (codec.decode_message payload ≡ some (m, rest))
        × (codec.at_eof rest ≡ true)
        × (validate codec m ≡ none)
  unfolding decode_inbound not_one_object
  decoded_command h = elim (Option-cases (codec.decode_message payload)) [
    | inl none_read ↦ absurd (ground arith)
    | inr ((m', rest), read) ↦ elim (Option-cases (validate codec m')) [
      | inr (e, refused) ↦ absurd (ground arith)
      | inl valid ↦
          let same : m' ≡ m = ground arith in
          (ground arith, rest, rw (← same) read, ground arith, rw (← same) valid)
    ]
  ]

  command_decoded :
      (rest : Str)
      → starts_object (trim_space payload) ≡ true
      → codec.decode_message payload ≡ some (m, rest)
      → codec.at_eof rest ≡ true
      → validate codec m ≡ none
      → decode_inbound codec payload ≡ decoded m
  unfolding decode_inbound
  command_decoded rest opened read end valid = rw (opened, read, end, valid) refl

-- A frame is taken as a command exactly if its first byte that is not a space is `{`, it decodes to
-- that command with nothing behind it, and the command is valid.
pub decode_inbound_iff :
    (codec : Codec) (payload : Str) (m : InboundMessage)
    → (decode_inbound codec payload ≡ decoded m) ↔ (
        (starts_object (trim_space payload) ≡ true)
        × (rest : Str) × (codec.decode_message payload ≡ some (m, rest))
        × (codec.at_eof rest ≡ true)
        × IsValid codec m)
decode_inbound_iff codec payload m = (
  λ h.
      let (opened, rest, read, end, valid) = decoded_command codec payload m h in
      (opened, rest, read, end, (validate_iff codec m).0 valid),
  λ (opened, rest, read, end, valid).
      command_decoded codec payload m rest opened read end ((validate_iff codec m).1 valid),
)
