-- ===== src/Tests/Accounts.antt =====
-- auth/auth.service.ts on the sample platform.
use aideep_backend.Auth.Service.Codes.{send_code-six_digits}
use aideep_backend.Common.{
  ◌<◌, ◌≤◌, ℕ, length, chars, arith, some, String, ◌≡◌, refl, [], ◌∷◌, true, arith,
}
use aideep_backend.Infra.Action.{returned, thrown}
use aideep_backend.Infra.Exception.{unauthorized}
use aideep_backend.Infra.Redis.Keys.{redis_key, refresh_token}
use aideep_backend.Infra.Redis.{never}
use aideep_backend.Infra.World.{next_draw, World}
use aideep_backend.Auth.Service.{SignUpBody, ValidUser, refresh, send_code, verify_email, sign_up}
use aideep_backend.Infra.Text.{to_string, to_string}
use aideep_backend.Auth.Service.Accounts.{Registered, sign_up-roundtrip}
use aideep_backend.Auth.Service.Guesses.{after_guesses, send_code-guesses}
use aideep_backend.Auth.Service.Sessions.{IsCurrent, used, refresh-thrown}
use aideep_backend.Auth.Tokens.{Payload}
use aideep_backend.Samples.Codec.{tokens, payloads}
use aideep_backend.Samples.Tables.{sample}
use aideep_backend.Samples.Worlds.{board}

abbrev nina : SignUpBody
nina = record { email = "nina@example.org"; password = "secret"; name = "Nina" }

abbrev olga : ValidUser
olga = record { user_name = "Olga"; email = "olga@example.org"; user_id = "olga" }

abbrev master : Payload
master = record {
  user_name = "Olga";
  email = "olga@example.org";
  user_id = "olga";
  is_master = true;
}

abbrev master_token : String
master_token = tokens.sign master "30d" 1000

-- the board behind a request for a master token
abbrev mastered : World sample
mastered = record board {
  redis = sample.redis.set board.redis (redis_key refresh_token "olga") master_token never;
}

mastered-IsCurrent : IsCurrent sample tokens master_token master mastered
mastered-IsCurrent = record {
  answers = refl;
  valid = payloads.decode_encode master;
  current = refl;
  nonempty = refl;
}

sign_up-roundtrip_example :
    let mailed = (send_code sample tokens "nina@example.org" board).1 in
    let checked =
      verify_email sample tokens (record { email = "nina@example.org"; code = 123456 }) mailed in
    (checked.0 ≡ returned "인증에 성공했습니다.")
    × ((sign_up sample tokens nina checked.1).0 ≡ returned tt)
    × Registered sample tokens nina (sign_up sample tokens nina checked.1).1
unfolding next_draw
sign_up-roundtrip_example = sign_up-roundtrip sample tokens nina 123456 board refl refl refl

send_code-guesses_example :
    (verify_email sample tokens
      (record { email = "nina@example.org"; code = 123456 })
      (after_guesses sample tokens "nina@example.org"
        (1 ∷ 2 ∷ 3 ∷ 4 ∷ 5 ∷ [])
        (send_code sample tokens "nina@example.org" board).1)).0
    ≡ thrown (unauthorized "인증번호가 만료되었습니다.")
unfolding to_string next_draw
send_code-guesses_example =
    send_code-guesses sample tokens "nina@example.org" board (1 ∷ 2 ∷ 3 ∷ 4 ∷ 5 ∷ []) 123456 refl
      refl (ground arith)

refresh-thrown_example :
    refresh sample tokens master_token (refresh sample tokens master_token mastered).1
    ≡ (thrown (used sample tokens), (refresh sample tokens master_token mastered).1)
refresh-thrown_example =
    refresh-thrown sample tokens master_token master mastered mastered-IsCurrent refl

send_code-six_digits_example :
    (n : ℕ) × ((send_code sample tokens "new@example.org" board).0 ≡ returned (some (to_string n)))
    × (100000 ≤ n)
    × (n < 1000000)
    × (length (chars (to_string n)) ≡ 6)
send_code-six_digits_example =
    send_code-six_digits sample tokens "new@example.org" board refl (omega arith)
