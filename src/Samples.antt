-- ===== src/Samples.antt =====
-- A concrete platform: tables as lists of rows and Redis as a function. It shows that the
-- behaviour which `Infra.Platform` asks for can be met, and the tests run on it.
pub mod Lists
pub mod Tables
pub mod Coding
pub mod Codec
pub mod Worlds
pub mod Docs
pub mod Sockets
