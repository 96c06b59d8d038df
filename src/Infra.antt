-- ===== src/Infra.antt =====
-- What the services run on: exceptions and effects, PostgreSQL through Prisma, Redis, and the
-- state that one request reads and writes.
pub mod Exception
pub mod Action
pub mod Keeps
pub mod Returns
pub mod Table
pub mod Redis
pub mod Rows
pub mod Platform
pub mod World
pub mod Codec
pub mod Text
pub mod Frame
pub mod Failure
pub mod Transactions
