-- ===== src/Auth/Service/Guesses.antt =====
-- `sendMail` and `verify` of auth/auth.service.ts: how often a mailed code can be guessed.
use aideep_backend.Common.{
  ℕ, ◌+◌, ◌≤◌, String, ◌≡◌, refl, true, false, Option, none, some, List, [], ◌∷◌, length, any, ◌==◌,
  arith, leb, Bool-cases, inl, inr,
}
use aideep_backend.Auth.Service.{
  VerifyEmailBody, send_code, mail_code, verify_email, check_code, count_attempt,
}
use aideep_backend.Infra.Text.{to_string}
use aideep_backend.Auth.Tokens.{Tokens, AuthCode}
use aideep_backend.Infra.Action.{thrown}
use aideep_backend.Infra.Exception.{unauthorized}
use aideep_backend.Infra.Platform.{Platform}
use aideep_backend.Infra.Redis.{keep_ttl, ex}
use aideep_backend.Infra.Redis.Keys.{redis_key, auth_code}
use aideep_backend.Infra.Redis.Lookups.{get_set_same, get_del_same}
use aideep_backend.Infra.World.{
  World, redis_get, redis_set, redis_del, draw_code, send_mail, next_draw,
}

module _ (P : Platform) (T : Tokens) (email : String) where
  -- what Redis holds under the key of the address
  abbrev pub kept : World P → Option String
  kept w = P.redis.get w.redis (redis_key auth_code email)

  abbrev guess : ℕ → VerifyEmailBody
  guess n = record { email = email; code = n }

  -- the state behind some requests to verify, whatever they answer
  abbrev pub after_guesses : List ℕ → World P → World P
  after_guesses [] w = w
  after_guesses (n ∷ guesses) w = after_guesses guesses (verify_email P T (guess n) w).1

  -- A code is kept under the key, or none is; Redis answers.
  pub record Keeps (c : Option String) (w : World P) : Type 0 where
    pub holds : kept w ≡ c
    pub answers : w.outages ≡ []

  verify_email-missing :
      (n : ℕ) (w : World P)
      → Keeps none w
      → verify_email P T (guess n) w ≡ (thrown (unauthorized "인증번호가 만료되었습니다."), w)
  unfolding verify_email redis_get
  verify_email-missing n w k = ground (arith, k.holds, k.answers)

  verify_email-wrong :
      (n : ℕ) (w : World P) (c : AuthCode)
      → Keeps (some (T.encode c)) w
      → (c.code == to_string n) ≡ false
      → verify_email P T (guess n) w
        ≡ count_attempt P T
            (leb 5 (c.attempts + 1))
            email
            (record c { attempts = c.attempts + 1 })
            w
  unfolding verify_email redis_get check_code
  verify_email-wrong n w c k wrong =
      ground (arith, k.holds, k.answers, T.encode_nonempty c, T.decode_encode c, wrong)

  count_attempt-last :
      (w : World P) (c : AuthCode)
      → w.outages ≡ []
      → Keeps none (count_attempt P T true email c w).1
  unfolding count_attempt redis_del
  count_attempt-last w c answers =
      rw answers (record {
        holds = get_del_same P.redis w.redis (redis_key auth_code email);
        answers = refl;
      })

  count_attempt-next :
      (w : World P) (c : AuthCode)
      → w.outages ≡ []
      → Keeps (some (T.encode c)) (count_attempt P T false email c w).1
  unfolding count_attempt redis_set
  count_attempt-next w c answers = rw answers (record {
    holds = get_set_same P.redis w.redis (redis_key auth_code email) (T.encode c) keep_ttl;
    answers = refl;
  })

  after_guesses-missing :
      (guesses : List ℕ) (w : World P) → Keeps none w → Keeps none (after_guesses guesses w)
  after_guesses-missing [] w k = k
  after_guesses-missing (n ∷ guesses) w k =
      rw (verify_email-missing n w k) (after_guesses-missing guesses w k)

  after_guesses-wrong :
      (guesses : List ℕ) (w : World P) (c : AuthCode)
      → Keeps (some (T.encode c)) w
      → any (λ n. c.code == to_string n) guesses ≡ false
      → c.attempts ≤ 4
      → 5 ≤ length guesses + c.attempts
      → Keeps none (after_guesses guesses w)
  after_guesses-wrong [] w c k wrong few many = absurd (omega (arith, few, many))
  after_guesses-wrong (n ∷ guesses) w c k wrong few many =
      let differs : (c.code == to_string n) ≡ false = ground (arith, wrong) in
      elim (Bool-cases (leb 5 (c.attempts + 1))) [
        | inl t ↦
            rw (verify_email-wrong n w c k differs, t)
              (after_guesses-missing guesses _ (count_attempt-last w _ k.answers))
        | inr f ↦
            rw (verify_email-wrong n w c k differs, f)
              (after_guesses-wrong guesses _ (record c { attempts = c.attempts + 1 })
                (count_attempt-next w _ k.answers) (ground (arith, wrong)) (ground (arith, f))
                (omega (arith, many)))
      ]

module _ (P : Platform) (T : Tokens) (email : String) (w : World P) where
  -- the code that the next mail contains
  abbrev pub next_code : String
  next_code = to_string (next_draw P w.draws)

  pub send_code-Keeps :
      w.outages ≡ []
      → Keeps P T email
          (some (T.encode (record { code = next_code; attempts = 0; generated_at = w.now })))
          (send_code P T email w).1
  unfolding send_code mail_code draw_code redis_set send_mail
  send_code-Keeps answers = rw answers (record {
    holds = get_set_same P.redis w.redis (redis_key auth_code email) _ (ex 180);
    answers = refl;
  })

  -- Behind a mail to an address while Redis answers, five guesses or more that all differ from the mailed code use it up: whatever is tried next, the mailed code included, the answer is that the code has expired.
  pub send_code-guesses :
      (guesses : List ℕ) (n : ℕ)
      → w.outages ≡ []
      → any (λ g. next_code == to_string g) guesses ≡ false
      → 5 ≤ length guesses
      → (verify_email P T
          (record { email = email; code = n })
          (after_guesses P T email guesses (send_code P T email w).1)).0
        ≡ thrown (unauthorized "인증번호가 만료되었습니다.")
  send_code-guesses guesses n answers wrong many =
      rw
        (verify_email-missing P T email n _ (
          after_guesses-wrong P T email guesses _ _ (send_code-Keeps answers) wrong (omega arith)
            (omega (arith, many))))
        refl
