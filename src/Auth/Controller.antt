-- ===== src/Auth/Controller.antt =====
-- auth/auth.controller.ts
use aideep_backend.Common.{String, Option, none, some, chars, text_of, take_out}
use aideep_backend.Auth.Guard.{Credentials, authenticate_local}
use aideep_backend.Auth.Service as Service
use aideep_backend.Auth.Service.{TokenPair, SignUpBody, VerifyEmailBody}
use aideep_backend.Auth.Tokens.{Tokens}
use aideep_backend.Infra.Action.{pure, ◌>>=◌, ◌>>◌}
use aideep_backend.Infra.Platform.{Platform}
use aideep_backend.Infra.World.{Handler}

-- `req.headers['authorization'] ?? ''`
abbrev pub header_of : Option String → String
header_of none = ""
header_of (some header) = header

-- `authorization.replace('Bearer ', '')`
abbrev pub without_bearer : String → String
without_bearer header = text_of (take_out (chars "Bearer ") (chars header))

module _ (P : Platform) (T : Tokens) where
  unfoldable pub login : String → String → Handler P TokenPair
  login email password = do user ← authenticate_local P T email password; Service.login P T user

  unfoldable pub refresh : String → Handler P TokenPair
  refresh token = Service.refresh P T token

  unfoldable pub sign_up : SignUpBody → Handler P String
  sign_up body = do Service.sign_up P T body; pure "회원가입 성공"

  unfoldable pub issue_master : String → Handler P String
  issue_master user_id = Service.issue_master_token P T user_id

  unfoldable pub send_message : String → Handler P (Option String)
  send_message email = Service.send_code P T email

  unfoldable pub verify_email : VerifyEmailBody → Handler P String
  verify_email body = Service.verify_email P T body

  unfoldable pub logout : Credentials → String → Handler P String
  logout c user_id = Service.logout P T user_id (without_bearer (header_of c.authorization))
