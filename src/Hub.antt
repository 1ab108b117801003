-- ===== src/Hub.antt =====
-- backend/internal/websocket/hub.go: the hub of the websocket clients.
pub mod Maps
pub mod Clients
pub mod Agreement
pub mod Rooms
pub mod Incoming
pub mod Delivery
pub mod Audience
pub mod Targets
pub mod Runs
pub mod Slow
mod Tests
