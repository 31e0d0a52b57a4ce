-- ===== src/Realtime/Moves.antt =====
-- Every operation of go-server/internal/realtime is a sequence of small moves of the node. An
-- invariant is proved once for each move, and so for every operation.
pub mod Client
pub mod Hub
pub mod Session
pub mod Loop
pub mod Sound
pub mod Close
pub mod Start
pub mod Preserve
pub mod Run
pub mod Final
pub mod Settings
pub mod Complete
pub mod Reached
use websocket.Common.{ℕ, ◌+◌, ◌<◌, ◌≡◌, Bool, true, false, List, ◌∷◌, ◌++◌, [], Option, length}
use websocket.Text.{Str}
use websocket.Observability.{Metrics}
use websocket.Realtime.RateLimit.{RateLimiter}
use websocket.Realtime.Rooms.{Authorizer, join, leave}
use websocket.Realtime.Node.{Node, Frame, set_client, set_hub}
use websocket.Realtime.Client.{ClientOptions, new_client, close}
use websocket.Realtime.Loop.{register_session}

pub data Move : Node → Node → Type 0 where
  tallies :
      (n : Node) (m : Metrics)
      → m.active_connections ≡ n.metrics.active_connections
      → Move n (record n { metrics = m })
  enqueues :
      (n : Node) (a : ℕ) (frame : Frame)
      → (n.client a).closed ≡ false
      → length (n.client a).send < (n.client a).queue_capacity
      → Move n (set_client a (record (n.client a) { send = (n.client a).send ++ frame ∷ [] }) n)
  dequeues :
      (n : Node) (a : ℕ) (frame : Frame) (rest : List Frame)
      → (n.client a).send ≡ frame ∷ rest
      → Move n (set_client a (record (n.client a) { send = rest }) n)
  limits :
      (n : Node) (a : ℕ) (limiter : Option RateLimiter)
      → Move n (set_client a (record (n.client a) { limiter = limiter }) n)
  phases :
      (n : Node) (a : ℕ) (reading : Bool)
      → (reading ≡ true → (n.client a).closed ≡ false)
      → Move n (set_client a (record (n.client a) { reading = reading }) n)
  closes : (n : Node) (a : ℕ) (reason : Str) → Move n (close a reason n)
  joins :
      (n : Node) (auth : Authorizer) (a : ℕ) (room : Str)
      → a < n.next
      → Move n (set_hub (join auth n.hub (n.client a).self room).0 n)
  leaves : (n : Node) (a : ℕ) (room : Str) → Move n (set_hub (leave n.hub (n.client a).self room) n)
  makes : (n : Node) → Move n (record n { events = n.events + 1 })
  publishes : (n : Node) (ps : List (Str × Str)) → Move n (record n { published = ps })
  creates : (n : Node) (o : ClientOptions) → o.has_on_close ≡ true → Move n (new_client o n)
  registers :
      (n : Node) (a : ℕ)
      → (n.client a).closed ≡ false
      → (n.client a).has_on_close ≡ true
      → Move n (register_session a n)

pub data Moves (n : Node) : Node → Type 0 where
  done : Moves n n
  more : {m k : Node} → Moves n m → Move m k → Moves n k

pub one : {n m : Node} → Move n m → Moves n m
one s = more done s

infixl 40 ◌then◌
pub ◌then◌ : {n m k : Node} → Moves n m → Moves m k → Moves n k
r then done = r
r then more q s = more (r then q) s
