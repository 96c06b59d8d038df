-- ===== src/Ws/Gateway.antt =====
-- ws/ws.gateway.ts
pub mod State
pub mod Connections
pub mod Editing
pub mod Tracking
pub mod Sound
pub mod Messages
pub mod Arrivals
pub mod Reach
pub mod Joining
pub mod Syncing
pub mod Late
pub mod Presence
