-- ===== src/Config/Session.antt =====
-- go-server/internal/app/session_handler.go and server.go: what a loaded configuration makes of the
-- sessions, the hub and the boundary of a server.
use websocket.Common.{ℕ, ◌≡◌, ◌<◌, some, arith}
use websocket.Text.{Str}
use websocket.Integer.{ℤ, magnitude}
use websocket.Config.{Config, Outside, Environment}
use websocket.Config.Valid.{IsPositive}
use websocket.Config.Validate.{durations}
use websocket.Config.Load.{ok, load_from}
use websocket.Config.Load.Laws.{load_from-ok}
use websocket.Realtime.RateLimit.{new_rate_limiter}
use websocket.Realtime.Loop.{SessionConfig, session_options}

-- The fields of a Config that realtimeSessionHandler reads, where only positive values matter.
abbrev pub session_config : Config → SessionConfig
session_config c = record {
  outbound_queue_capacity = magnitude c.outbound_queue_capacity;
  websocket_read_timeout = magnitude c.websocket_read_timeout;
  websocket_write_timeout = magnitude c.websocket_write_timeout;
  websocket_max_message_size = magnitude c.websocket_max_message_size;
  rate_limit_messages = magnitude c.rate_limit_messages;
  rate_limit_interval = magnitude c.rate_limit_interval;
}

magnitude_pos : (z : ℤ) → IsPositive z → 0 < magnitude z
magnitude_pos z (n, e, h) = rw e h

-- Every session of a server whose configuration was loaded has room for a frame, deadlines for its
-- reads and writes, a limit on its messages' size, and a rate limiter with a positive limit and
-- interval; the number of sessions and of rooms per session are limited too.
pub loaded_session :
    (outside : Outside) (env : Environment) (c : Config) (conn user : Str) (now : ℕ)
    → load_from outside env ≡ ok c
    → let o = session_options (session_config c) conn user now in
      (0 < o.queue_capacity)
      × (0 < o.read_timeout)
      × (0 < o.write_timeout)
      × (0 < o.max_message_size)
      × (0 < magnitude c.rate_limit_messages)
      × (0 < magnitude c.rate_limit_interval)
      × (o.limiter
          ≡ some (
              new_rate_limiter
                (magnitude c.rate_limit_messages)
                (magnitude c.rate_limit_interval)
                now))
      × (0 < magnitude c.max_connections)
      × (0 < magnitude c.max_rooms_per_client)
unfolding session_options durations
loaded_session outside env c conn user now h =
    let v = (load_from-ok outside env c h).0 in
    let sessions = v.timed.1.1.1.1.1 in
    let messages_pos = magnitude_pos c.rate_limit_messages v.messages in
    let interval_pos = magnitude_pos c.rate_limit_interval sessions.1.1.0 in
    (
      magnitude_pos c.outbound_queue_capacity v.queue,
      magnitude_pos c.websocket_read_timeout sessions.0,
      magnitude_pos c.websocket_write_timeout sessions.1.0,
      magnitude_pos c.websocket_max_message_size v.message_size,
      messages_pos,
      interval_pos,
      ground arith,
      magnitude_pos c.max_connections v.connections,
      magnitude_pos c.max_rooms_per_client v.rooms,
    )
