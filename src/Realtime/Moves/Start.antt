-- ===== src/Realtime/Moves/Start.antt =====
-- The node of a process that has just started, and that it keeps the invariant.
use websocket.Common.{Bool, ℕ, refl, true, false, none, [], arith}
use websocket.Text.{Str}
use websocket.Dict.{lookup}
use websocket.Observability.{new_metrics}
use websocket.Realtime.Rooms.{set_broker, member, new_hub}
use websocket.Realtime.Rooms.Invariant.{set_broker-IsConsistent, new_hub-IsConsistent}
use websocket.Realtime.Node.{Node}
use websocket.Realtime.Moves.Sound.{open_count, IsSound}

-- A new hub's node: nothing has been created, and what is not created counts as closed.
unfoldable pub new_node : ℕ → Bool → Str → Node
new_node max_rooms has_broker node_id = record {
  client = λ a. record {
    self = record { address = a; connection_id = []; user_id = [] };
    queue_capacity = 0;
    read_timeout = 0;
    write_timeout = 0;
    ping_interval = 0;
    max_message_size = 0;
    has_hub = false;
    has_on_close = false;
    limiter = none;
    send = [];
    closed = true;
    registered = false;
    reading = false;
  };
  next = 0;
  hub = set_broker (new_hub max_rooms) has_broker node_id;
  metrics = new_metrics;
  events = 0;
  published = [];
}

pub new_node-IsSound :
    (max_rooms : ℕ) (has_broker : Bool) (node_id : Str)
    → IsSound (new_node max_rooms has_broker node_id)
unfolding new_node new_hub lookup member set_broker open_count
new_node-IsSound max_rooms has_broker node_id = record {
  consistent =
      set_broker-IsConsistent (new_hub max_rooms) has_broker node_id
        (new_hub-IsConsistent max_rooms);
  bounded = λ a. omega arith;
  addressed = λ a h. refl;
  fresh = λ a h. refl;
  registered = λ u c e. absurd (ground arith);
  roomed = λ r k c e. absurd (ground arith);
  readers = λ a h. absurd (ground arith);
  callbacks = λ a h. absurd (ground arith);
  counted = refl;
}
