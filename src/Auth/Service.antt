-- ===== src/Auth/Service.antt =====
-- auth/auth.service.ts, and `validate` of auth/strategy/jwt.strategy.ts
pub mod Guesses
pub mod Sessions
pub mod Accounts
pub mod Codes
use Prim.Native.String.{◌++◌ as ◌++ˢ◌}
use aideep_backend.Common.{
  ℕ, zero, suc, ◌+◌, String, Bool, true, false, not, Option, none, some, List, [], ◌∷◌, ◌==◌, ltb,
  leb, if◌then◌else◌, is_some,
}
use aideep_backend.Auth.Tokens.{Tokens, Payload, AuthCode}
use aideep_backend.Infra.Action.{
  Outcome, returned, Action, pure, throw, or_throw, ensure, resume, ◌>>=◌, ◌>>◌,
}
use aideep_backend.Infra.Exception.{unauthorized, forbidden, not_found, syntax_error}
use aideep_backend.Infra.Platform.{Platform, UserInput}
use aideep_backend.Infra.Redis.{never, keep_ttl, ex}
use aideep_backend.Infra.Redis.Keys.{redis_key, auth_code, verified, refresh_token, blacklist}
use aideep_backend.Infra.Rows.{UserRow}
use aideep_backend.Infra.World.{
  World, Handler, Mail, redis_get, redis_set, redis_del, draw_code, send_mail,
}
use aideep_backend.Infra.Text.{truthy, to_string}
use aideep_backend.User.Repository.{find_by_user_id, find_by_email, create_user}

pub record VerifyEmailBody : Type 0 where
  pub email : String
  pub code : ℕ

-- `SignUpBody`; its telephone number is never read
pub record SignUpBody : Type 0 where
  pub email : String
  pub password : String
  pub name : String

-- what `validateUser` returns
pub record ValidUser : Type 0 where
  pub user_name : String
  pub email : String
  pub user_id : String

pub record TokenPair : Type 0 where
  pub access_token : String
  pub refresh_token : String

abbrev mail_text : String → String
mail_text code = ("[AIdeep] 본인 확인 인증번호 [" ++ˢ code) ++ˢ "]입니다."

module _ (P : Platform) (T : Tokens) where
  unfoldable pub validate_user : String → String → Handler P ValidUser
  validate_user email password = do
    found ← find_by_email P email
    user ← or_throw found (unauthorized "존재하지 않는 아이디 입니다")
    ensure (T.compare password user.password) (unauthorized "비밀번호가 일치하지 않습니다.")
    pure (record { user_name = user.username; email = user.email; user_id = user.user_id })

  -- `jwtService.sign(payload, { expiresIn })` now
  abbrev signed : Payload → String → Handler P String
  signed payload life w = (returned (T.sign payload life w.now), w)

  unfoldable pub issue_master_token : String → Handler P String
  issue_master_token user_id = do
    found ← find_by_user_id P user_id
    user ← or_throw found (not_found "존재하지 않는 유저입니다.")
    master_token ←
        signed
          (record {
            user_name = user.username;
            email = user.email;
            user_id = user.user_id;
            is_master = true;
          })
          "30d"
    redis_set P (redis_key refresh_token user_id) master_token never
    pure master_token

  -- the common end of `login` and `refresh`
  unfoldable pub issue_pair : Payload → Handler P TokenPair
  issue_pair payload = do
    access ← signed payload "15m"
    refresh ← signed payload "7d"
    redis_set P (redis_key refresh_token payload.user_id) refresh (ex 604800)
    pure (record { access_token = access; refresh_token = refresh })

  abbrev pub payload_of : ValidUser → Payload
  payload_of user = record {
    user_name = user.user_name;
    email = user.email;
    user_id = user.user_id;
    is_master = false;
  }

  unfoldable pub login : ValidUser → Handler P TokenPair
  login user = issue_pair (payload_of user)

  -- `jwtService.verify(token)` now
  abbrev verified_now : String → Handler P (Option Payload)
  verified_now token w = (returned (T.verify token w.now), w)

  abbrev same_token : String → Option String → Bool
  same_token token none = false
  same_token token (some stored) = stored == token

  unfoldable pub refresh : String → Handler P TokenPair
  refresh token = do
    valid ← verified_now token
    payload ← or_throw valid (unauthorized "유효하지 않은 refresh token입니다.")
    stored ← redis_get P (redis_key refresh_token payload.user_id)
    ensure (same_token token (truthy stored)) (unauthorized "만료되거나 이미 사용된 refresh token입니다.")
    issue_pair (record payload { is_master = false })

  unfoldable pub logout : String → String → Handler P String
  logout user_id access_token = do
    redis_del P (redis_key refresh_token user_id)
    redis_set P (redis_key blacklist access_token) "1" (ex 900)
    pure "로그아웃 성공"

  -- `JwtStrategy.validate`, for a request that carries the token
  unfoldable pub validate : String → Payload → Handler P Payload
  validate token payload = do
    blacklisted ← redis_get P (redis_key blacklist token)
    ensure (not (is_some (truthy blacklisted))) (unauthorized "만료된 토큰입니다.")
    pure payload

  abbrev pub clock : Handler P ℕ
  clock w = (returned w.now, w)

  -- the body of the `try` in `sendMail`
  unfoldable pub mail_code : String → Handler P String
  mail_code email = do
    drawn ← draw_code P
    now ← clock
    let code = to_string drawn
    redis_set P (redis_key auth_code email)
        (T.encode (record { code = code; attempts = 0; generated_at = now })) (ex 180)
    send_mail P (record { to = email; text = mail_text code })
    pure code

  -- `catch (err) { console.log(err) }`: the request then returns no code
  abbrev pub caught : {A : Type 0} → Outcome A → Handler P (Option A)
  caught (returned a) w = (returned (some a), w)
  caught (Outcome.thrown e) w = (returned none, w)

  unfoldable pub send_code : String → Handler P (Option String)
  send_code email w = let r = mail_code email w in caught r.0 r.1

  -- `if (stored.attempts >= 5)`
  unfoldable pub count_attempt : Bool → String → AuthCode → Handler P String
  count_attempt true email stored = do
    redis_del P (redis_key auth_code email)
    throw (unauthorized "인증 횟수를 초과했습니다. 다시 요청해주세요.")
  count_attempt false email stored = do
    redis_set P (redis_key auth_code email) (T.encode stored) keep_ttl
    throw (unauthorized "인증번호가 일치하지 않습니다.")

  -- `if (stored.code !== code.toString())`, and what is behind it
  unfoldable pub check_code : Bool → String → AuthCode → Handler P String
  check_code true email stored = do
    redis_del P (redis_key auth_code email)
    redis_set P (redis_key verified email) "1" (ex 600)
    pure "인증에 성공했습니다."
  check_code false email stored =
      count_attempt (leb 5 (stored.attempts + 1)) email
        (record stored { attempts = stored.attempts + 1 })

  unfoldable pub verify_email : VerifyEmailBody → Handler P String
  verify_email dto = do
    found ← redis_get P (redis_key auth_code dto.email)
    raw ← or_throw (truthy found) (unauthorized "인증번호가 만료되었습니다.")
    stored ← or_throw (T.decode raw) syntax_error
    check_code (stored.code == to_string dto.code) dto.email stored

  unfoldable pub sign_up : SignUpBody → Handler P (Unit {0})
  sign_up dto = do
    check ← find_by_email P dto.email
    ensure (not (is_some check)) (forbidden "이미 존재하는 아이디 입니다.")
    is_verified ← redis_get P (redis_key verified dto.email)
    ensure (is_some (truthy is_verified)) (forbidden "인증되지 않은 메일입니다.")
    redis_del P (redis_key verified dto.email)
    _ ←
        create_user P
          (record { email = dto.email; password = T.hash dto.password; username = dto.name })
    pure tt
