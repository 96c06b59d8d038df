-- ===== src/Http.antt =====
-- The HTTP requests that need a session, as one type: guard, controller and service together.
pub mod Routes
pub mod Sessions
pub mod Frame
pub mod Graphs
pub mod Served
pub mod Rights
