-- ===== src/Edge.antt =====
-- src/edge: the graph that the edges of a workspace form, and the edge service.
pub mod Walk
pub mod Acyclic
pub mod Steps
pub mod Cycle
pub mod Repository
pub mod Graph
pub mod Service
pub mod Controller
