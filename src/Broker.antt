-- ===== src/Broker.antt =====
-- go-server/internal/broker.
pub mod Event
pub mod Memory
pub mod Nats
mod Tests
