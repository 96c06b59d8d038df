-- ===== src/Auth.antt =====
-- src/auth: accounts, mailed codes, tokens.
pub mod Tokens
pub mod Service
pub mod Guard
pub mod Controller
