-- ===== src/Infra/Exception.antt =====
-- What the code throws: the exceptions of @nestjs/common, those that Prisma and Redis raise, the
-- `TypeError` of a read through null, and the `BasicError` of common/error/basic-error.ts.
use aideep_backend.Common.{ℕ, String}

-- `class BasicError`: status, code, message, description
pub record BasicError : Type 0 where
  pub status : ℕ
  pub code : String
  pub message : String
  pub description : String

pub data Exception : Type 0 where
  -- `HttpException`: its status and its message
  http : ℕ → String → Exception
  -- `Prisma.PrismaClientKnownRequestError`: its code, `meta.target` as text, and its message
  known_request : String → String → String → Exception
  basic : BasicError → Exception
  -- a rejected Redis call
  rejected : Exception
  type_error : Exception
  -- `new Error(message)`
  plain_error : String → Exception
  -- the `SyntaxError` of `JSON.parse`
  syntax_error : Exception
  -- a search or a recursive query that never ends
  diverged : Exception

abbrev pub bad_request : String → Exception
bad_request = http 400

abbrev pub unauthorized : String → Exception
unauthorized = http 401

abbrev pub forbidden : String → Exception
forbidden = http 403

abbrev pub not_found : String → Exception
not_found = http 404

-- "An operation failed because it depends on one or more records that were required but not found."
abbrev pub record_not_found : Exception
record_not_found = known_request "P2025" "" "Record not found"

-- "Transaction API error": the commit failed, or came too late
abbrev pub uncommitted : Exception
uncommitted = known_request "P2028" "" "Transaction API error"
