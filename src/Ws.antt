-- ===== src/Ws.antt =====
-- src/ws: the events that the REST services broadcast, and the Socket.IO gateway.
pub mod Event
pub mod Sockets
pub mod Gateway
