-- ===== src/Node.antt =====
-- src/node: the nodes of a workspace, and the queries on the tree below a node.
pub mod Content
pub mod Descendants
pub mod Repository
pub mod Service
pub mod Frame
pub mod Move
pub mod Depth
pub mod Meta
pub mod Deletion
pub mod Creation
pub mod Permission
pub mod Model
pub mod Controller
