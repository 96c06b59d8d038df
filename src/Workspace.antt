-- ===== src/Workspace.antt =====
-- src/workspace: memberships, invitations, and the cached content of a workspace.
pub mod Repository
pub mod Membership
pub mod Service
pub mod Controller
