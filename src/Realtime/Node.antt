-- ===== src/Realtime/Node.antt =====
-- go-server/internal/realtime/client.go: the state of a session, and the state of one process, which
-- every handler of the package reads and writes: the sessions by address, the hub, the counters, and
-- the number of envelopes made so far.
use websocket.Common.{ℕ, Bool, List, Option, nat_eq, if◌then◌else◌}
use websocket.Text.{Str}
use websocket.Observability.{Metrics}
use websocket.Realtime.Rooms.{ClientRef, Hub}
use websocket.Realtime.RateLimit.{RateLimiter}

-- outboundMessage
pub record Frame : Type 0 where
  pub message_type : ℕ
  pub payload : Str

-- `self` holds the address, connectionID and userID. A nil hub or onClose is `false`; onClose, where
-- it is set, is the callback of realtimeSessionHandler.Handle, Hub.Unregister of this session.
-- `send` is the buffer of the channel, oldest first. `closed` also stands for the closed channel
-- `done` and for closeOnce, which are set with it. A duration counts nanoseconds; it is read only
-- where it is positive, so 0 stands for every value that is not. The socket is not modelled.
pub record Client : Type 0 where
  pub self : ClientRef
  pub queue_capacity : ℕ
  pub read_timeout : ℕ
  pub write_timeout : ℕ
  pub ping_interval : ℕ
  pub max_message_size : ℕ
  pub has_hub : Bool
  pub has_on_close : Bool
  pub limiter : Option RateLimiter
  pub send : List Frame
  pub closed : Bool
  -- whether Handle has called Register with it
  pub registered : Bool
  -- whether Run is in its read loop
  pub reading : Bool

pub record Node : Type 0 where
  pub client : ℕ → Client
  -- the address of the next session
  pub next : ℕ
  pub hub : Hub
  pub metrics : Metrics
  -- how many envelopes newOutboundMessage has been asked for
  pub events : ℕ
  -- what the broker has been handed, oldest first: subject and bytes
  pub published : List (Str × Str)

-- A write through a *Client.
abbrev pub set_client : ℕ → Client → Node → Node
set_client a c n = record n { client = λ b. if nat_eq b a then c else n.client b }

abbrev pub set_hub : Hub → Node → Node
set_hub h n = record n { hub = h }

abbrev pub count_metric : (Metrics → Metrics) → Node → Node
count_metric f n = record n { metrics = f n.metrics }
