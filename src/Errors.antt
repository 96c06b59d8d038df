-- ===== src/Errors.antt =====
-- src/common/error and src/common/response: what a request that throws is answered with.
pub mod Filter
pub mod Database
