-- ===== src/Loadtest/Commands.antt =====
-- go-server/cmd/loadtest/main.go (runClient): what a client of the load test sends, as the server
-- decodes it. The payload of a broadcast, a map marshalled by encoding/json, is an argument.
use websocket.Common.{
  ℕ, ◌^◌, ◌<◌, ◌≤◌, ◌≡◌, ◌≢◌, refl, true, none, [], ◌++◌, arith, length, length-append,
}
use websocket.Text.{Str, text, trim_space}
use websocket.Text.Printable.{IsPrintable, IsPrintable-append, trim_space-printable}
use websocket.Integer.Decimal.{decimal, decimal-IsPrintable, decimal-length}
use websocket.Realtime.Message.{
  Codec, InboundMessage, validate, room_join, room_broadcast, valid_payload,
}
use websocket.Realtime.Message.Valid.{validate_iff, IsValid, joins, broadcasts}

unfoldable pub join_id : ℕ → Str
join_id id = text "join_" ++ decimal id

unfoldable pub request_id : ℕ → ℕ → Str
request_id id seq = text "msg_" ++ decimal id ++ text "_" ++ decimal seq

abbrev pub join_message : ℕ → InboundMessage
join_message id = record {
  version = text "1";
  type = room_join;
  request_id = join_id id;
  room_id = text "loadtest_room";
  recipient_id = [];
  payload = [];
}

abbrev pub broadcast_message : ℕ → ℕ → Str → InboundMessage
broadcast_message id seq payload = record {
  version = text "1";
  type = room_broadcast;
  request_id = request_id id seq;
  room_id = text "loadtest_room";
  recipient_id = [];
  payload = payload;
}

join_id-IsPrintable : (id : ℕ) → IsPrintable (join_id id)
unfolding join_id
join_id-IsPrintable id = ground (arith, decimal-IsPrintable id)

request_id-IsPrintable : (id seq : ℕ) → IsPrintable (request_id id seq)
unfolding request_id
request_id-IsPrintable id seq =
    IsPrintable-append (text "msg_" ++ decimal id ++ text "_") (decimal seq)
      (IsPrintable-append (text "msg_" ++ decimal id) (text "_")
        (ground (arith, decimal-IsPrintable id)) (ground arith))
      (decimal-IsPrintable seq)

-- A request identifier that needs no trimming, is not empty and is short enough.
trimmed :
    (s : Str)
    → IsPrintable s
    → s ≢ []
    → length s ≤ 128
    → (trim_space s ≢ []) × (length (trim_space s) ≤ 128)
trimmed s printable full short = rw (trim_space-printable s printable) (full, short)

join-IsValid : (codec : Codec) (id : ℕ) → id < 2 ^ 64 → IsValid codec (join_message id)
unfolding join_id trim_space
join-IsValid codec id small =
    let digits = decimal-length id small in
    let (named, short) =
      trimmed (join_id id) (join_id-IsPrintable id) (λ e. cc) (omega (arith, digits)) in
    record {
      version = refl;
      requested = named;
      short_request = short;
      routable = joins refl (λ e. cc);
      short_room = omega arith;
      short_recipient = omega arith;
    }

request_id-length : (id seq : ℕ) → id < 2 ^ 64 → seq < 2 ^ 64 → length (request_id id seq) ≤ 128
unfolding request_id
request_id-length id seq h k =
    let first = decimal-length id h in
    let second = decimal-length seq k in
    let whole = length-append {0} (text "msg_" ++ decimal id ++ text "_") (decimal seq) in
    let front = length-append {0} (text "msg_" ++ decimal id) (text "_") in omega arith

broadcast-IsValid :
    (codec : Codec) (id seq : ℕ) (payload : Str)
    → id < 2 ^ 64
    → seq < 2 ^ 64
    → valid_payload codec payload ≡ true
    → IsValid codec (broadcast_message id seq payload)
unfolding request_id trim_space
broadcast-IsValid codec id seq payload h k object =
    let (named, short) =
      trimmed (request_id id seq) (request_id-IsPrintable id seq) (λ e. cc)
        (request_id-length id seq h k) in
    record {
      version = refl;
      requested = named;
      short_request = short;
      routable = broadcasts refl (λ e. cc) object;
      short_room = omega arith;
      short_recipient = omega arith;
    }

-- The server's Validate accepts the join and every broadcast of a client of the load test, if the
-- payload that encoding/json marshals is taken for an object and the numbers of clients and of messages
-- fit 64 bits.
pub validate-loadtest :
    (codec : Codec) (id seq : ℕ) (payload : Str)
    → id < 2 ^ 64
    → seq < 2 ^ 64
    → valid_payload codec payload ≡ true
    → (validate codec (join_message id) ≡ none)
      × (validate codec (broadcast_message id seq payload) ≡ none)
validate-loadtest codec id seq payload h k object = (
  (validate_iff codec _).1 (join-IsValid codec id h),
  (validate_iff codec _).1 (broadcast-IsValid codec id seq payload h k object),
)
