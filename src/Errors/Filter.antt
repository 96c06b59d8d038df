-- ===== src/Errors/Filter.antt =====
-- common/error/basic-error.ts, common/error/http-exception.filter.ts and common/response/response.interceptor.ts
use Prim.Native.String.{◌++◌}
use aideep_backend.Common.{ℕ, String, Bool, true, false, Option, none, some, List, [], ◌∷◌}
use aideep_backend.Infra.Exception.{BasicError}
use aideep_backend.Infra.Text.{to_string}

-- `message` of the object that an `HttpException` answers with
pub data HttpMessage : Type 0 where
  several : List String → HttpMessage
  one : String → HttpMessage
  no_text : HttpMessage

-- `getResponse()`: a text, or an object with `message` and `error`
pub data HttpBody : Type 0 where
  plain : String → HttpBody
  object : HttpMessage → Option String → HttpBody

pub record HttpException : Type 0 where
  pub status : ℕ
  pub message : String
  pub response : HttpBody

-- what a filter is given
pub data Caught : Type 0 where
  basic : BasicError → Caught
  http : HttpException → Caught
  other : Caught

-- `error` of `ErrorResponse`
pub record ErrorBody : Type 0 where
  pub error_code : String
  pub reason : String
  pub data_text : String

-- a body: `SUCCESS` with what the handler returned, or `FAIL` with an error
pub data Body (A : Type 0) : Type 0 where
  success : A → Body A
  fail : ErrorBody → Body A

-- `toJSON`
unfoldable pub to_json : {A : Type 0} → BasicError → Body A
to_json e = fail (record { error_code = e.code; reason = e.message; data_text = e.description })

-- `join(', ')`
abbrev pub join : List String → String
join [] = ""
join (s ∷ []) = s
join (s ∷ t ∷ rest) = s ++ (", " ++ join (t ∷ rest))

abbrev reason_of : String → HttpBody → String
reason_of message (plain text) = message
reason_of message (object (several messages) error) = join messages
reason_of message (object (one text) error) = text
reason_of message (object no_text error) = message

abbrev given_text : Option String → String
given_text none = ""
given_text (some text) = text

abbrev data_of : HttpBody → String
data_of (plain text) = ""
data_of (object message error) = given_text error

abbrev http_error : HttpException → ErrorBody
http_error e = record {
  error_code = "HTTP-" ++ to_string e.status;
  reason = reason_of e.message e.response;
  data_text = data_of e.response;
}

abbrev internal_error : ErrorBody
internal_error = record { error_code = "COMMON-500"; reason = "서버 내부 오류가 발생했습니다."; data_text = "" }

-- `AllExceptionsFilter.catch`, less its logging: the status and the body
unfoldable pub catch : {A : Type 0} → Caught → ℕ × Body A
catch (basic e) = (e.status, to_json e)
catch (http e) = (e.status, fail (http_error e))
catch other = (500, fail internal_error)

-- `ResponseInterceptor.intercept`: `none` passes what the handler returned on as it is
unfoldable pub intercept : {A : Type 0} → Bool → Bool → A → Option (Body A)
intercept true skip_transform a = none
intercept false true a = none
intercept false false a = some (success a)
