-- ===== src/Errors/Database.antt =====
-- `handleDbError` of common/error/db-error-handler.ts, which nothing calls
use Prim.Native.String.{◌++◌}
use aideep_backend.Common.{String, Option, none, some, List, ◌==◌, if◌then◌else◌}
use aideep_backend.Infra.Exception.{BasicError}
use aideep_backend.Errors.Filter.{Caught, basic, join}

-- `error.meta?.target`
pub data Target : Type 0 where
  columns : List String → Target
  a_text : String → Target
  no_target : Target

-- `Prisma.PrismaClientKnownRequestError`
pub record KnownRequestError : Type 0 where
  pub code : String
  pub target : Target
  pub message : String

abbrev text_of_target : Target → String
text_of_target (columns names) = join names
text_of_target (a_text text) = text
text_of_target no_target = ""

abbrev unique_error : String → BasicError
unique_error target = record {
  status = 409;
  code = "DB-P2002";
  message = "이미 존재하는 데이터입니다.";
  description = "유니크 제약 조건 위반: " ++ target;
}

abbrev foreign_key_error : String → BasicError
foreign_key_error target = record {
  status = 400;
  code = "DB-P2003";
  message = "참조하는 데이터가 존재하지 않습니다.";
  description = "외래키 제약 조건 위반: " ++ target;
}

abbrev missing_error : BasicError
missing_error = record {
  status = 404;
  code = "DB-P2025";
  message = "요청한 데이터를 찾을 수 없습니다.";
  description = "레코드를 찾을 수 없습니다.";
}

abbrev other_error : KnownRequestError → BasicError
other_error e = record {
  status = 500;
  code = "DB-" ++ e.code;
  message = "데이터베이스 오류가 발생했습니다.";
  description = e.message;
}

-- the `switch` on the code of an error that Prisma knows
unfoldable pub db_error : KnownRequestError → BasicError
db_error e =
    if e.code == "P2002"
    then unique_error (text_of_target e.target)
    else if e.code == "P2003"
    then foreign_key_error (text_of_target e.target)
    else if e.code == "P2025"
    then missing_error
    else other_error e

-- what `handleDbError` throws
unfoldable pub handle_db_error : Option KnownRequestError → Caught → Caught
handle_db_error (some e) error = basic (db_error e)
handle_db_error none error = error
