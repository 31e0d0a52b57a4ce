-- ===== src/Realtime/Tests/Frames.antt =====
-- The theorems about the messages, the rate limit and closed sessions, at concrete inputs.
use websocket.Common.{◌⊎◌, false, ◌≡◌, ◌↔◌, refl, true, none, some, [], arith}
use websocket.Text.{Str, ◌==◌, text, trim_space}
use websocket.Realtime.Message.{starts_object, validate, decode_inbound, decoded}
use websocket.Realtime.Message.Valid.{IsValid, validate_iff, decode_inbound_iff}
use websocket.Realtime.RateLimit.Bound.{allow_each, at_once, allow_each-rested}
use websocket.Dict.{lookup, insert}
use websocket.Realtime.Rooms.{
  set_broker, new_hub, join, at_limit, unregister, is_active, leave_all, install, allow_all, member,
}
use websocket.Realtime.Node.{Node}
use websocket.Realtime.Client.{count_close, run_on_close, new_client, close}
use websocket.Realtime.Hub.{register, replaced_by}
use websocket.Realtime.Session.{handle_command}
use websocket.Realtime.Loop.{end_reading, register_session, session_options}
use websocket.Realtime.Moves.Start.{new_node}
use websocket.Realtime.Closed.{closed_join-stays}
use websocket.Realtime.Loop.{read_round}
use websocket.Realtime.Node.{set_client}
use websocket.Realtime.Session.{rate_limit}
use websocket.Realtime.Reply.Frames.{read_round_lem, IsReplied}
use websocket.Realtime.Tests.{
  join_frame, register, test_codec, test_events, log_publish, join_lobby, settings,
}

validate_iff_example : (validate test_codec join_lobby ≡ none) ↔ IsValid test_codec join_lobby
validate_iff_example = validate_iff test_codec join_lobby

decode_inbound_iff_example : (decode_inbound test_codec (text " {}") ≡ decoded join_lobby) ↔ (
    (starts_object (trim_space (text " {}")) ≡ true)
    × (rest : Str) × (test_codec.decode_message (text " {}") ≡ some (join_lobby, rest))
    × (test_codec.at_eof rest ≡ true)
    × IsValid test_codec join_lobby)
decode_inbound_iff_example = decode_inbound_iff test_codec (text " {}") join_lobby

-- An empty bucket of two, after more than an interval.
allow_each-rested_example :
    (allow_each
      (record { limit = 2; interval = 10; tokens = 0; last_refreshed = 100 })
      (at_once 3 112)).1
    ≡ 2
allow_each-rested_example =
    allow_each-rested (record { limit = 2; interval = 10; tokens = 0; last_refreshed = 100 }) 112 3
      (omega arith) (omega arith) (omega arith) (omega arith)

-- ann has connected, and her session has been closed.
abbrev ann_closed : Node
ann_closed = close 0 (text "shutdown") (
    register_session 0
      (new_client (session_options settings (text "c0") (text "ann") 0) (new_node 2 false [])))

closed_join-stays_example :
    member
      (end_reading 0
        (text "outbound_unavailable")
        (handle_command test_codec test_events log_publish allow_all 0 join_lobby
          ann_closed).0).hub.rooms
      (text "lobby")
      (text "c0")
    ≡ some (ann_closed.client 0).self
unfolding close run_on_close count_close register_session new_client register replaced_by
    session_options ◌==◌ lookup insert new_node set_broker new_hub join at_limit unregister
    is_active leave_all install
closed_join-stays_example =
    (closed_join-stays test_codec test_events log_publish allow_all 0 join_lobby ann_closed refl
      refl refl refl).1

-- A session in its read loop, with room for two frames.
abbrev ann_reads : Node
ann_reads =
    let n =
      new_client (session_options settings (text "c0") (text "ann") 0) (new_node 2 false []) in
    set_client 0 (record (n.client 0) { reading = true }) n

abbrev after_frame : Node
after_frame = read_round test_codec test_events log_publish allow_all 0 join_frame true ann_reads

read_round_lem_example :
    ((after_frame.client 0).closed ≡ true)
    ⊎ IsReplied test_codec 0 join_frame (rate_limit 0 join_frame.at ann_reads).1 after_frame
read_round_lem_example =
    read_round_lem test_codec test_events log_publish allow_all 0 join_frame true ann_reads refl
