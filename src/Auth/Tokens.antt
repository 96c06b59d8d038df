-- ===== src/Auth/Tokens.antt =====
-- What auth/auth.service.ts calls: the tokens of @nestjs/jwt, the hashes of bcrypt, and the JSON of
-- the object that it keeps in Redis, with the documented behaviour that the code relies on.
use aideep_backend.Common.{ℕ, String, ◌≡◌, Bool, true, false, Option, some, ◌==◌}

-- `JwtPayload`, with the `isMaster` of `issueMasterToken`
pub record Payload : Type 0 where
  pub user_name : String
  pub email : String
  pub user_id : String
  pub is_master : Bool

-- `{ code, attempts, generatedAt }`
pub record AuthCode : Type 0 where
  pub code : String
  pub attempts : ℕ
  pub generated_at : ℕ

pub record Tokens : Type 0 where
  -- `jwtService.sign(payload, { expiresIn })` at a time
  pub sign : Payload → String → ℕ → String
  -- `jwtService.verify(token)` at a time; `none` means that it throws
  pub verify : String → ℕ → Option Payload
  pub verify_sign : (p : Payload) (life : String) (now : ℕ) → verify (sign p life now) now ≡ some p
  pub sign_nonempty : (p : Payload) (life : String) (now : ℕ) → (sign p life now == "") ≡ false
  -- `bcrypt.compare(password, hash)`; the hash of a password at one call has some salt
  pub compare : String → String → Bool
  pub hash : String → String
  pub compare_hash : (password : String) → compare password (hash password) ≡ true
  -- `JSON.stringify` and `JSON.parse` on the object of a mailed code
  pub encode : AuthCode → String
  pub decode : String → Option AuthCode
  pub decode_encode : (c : AuthCode) → decode (encode c) ≡ some c
  pub encode_nonempty : (c : AuthCode) → (encode c == "") ≡ false
