-- ===== src/Realtime.antt =====
-- go-server/internal/realtime.
pub mod Message
pub mod RateLimit
pub mod Rooms
pub mod Node
pub mod Client
pub mod Hub
pub mod Session
pub mod Loop
pub mod Moves
pub mod Delivery
pub mod Broadcast
pub mod Reply
pub mod Registry
pub mod Private
pub mod Closed
pub mod Wired
pub mod Cluster
pub mod RoomMessage
pub mod Tests
