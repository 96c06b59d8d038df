-- ===== src/User.antt =====
-- src/user: the users' rows.
pub mod Repository
pub mod Controller
