-- ===== src/Auth/Service/Sessions.antt =====
-- `login`, `refresh` and `logout` of auth/auth.service.ts, and `validate` of auth/strategy/jwt.strategy.ts.
use aideep_backend.Common.{
  String, ◌≡◌, refl, ◌∙◌, false, Option, none, some, ◌==◌, eq_refl, arith, [],
}
use aideep_backend.Auth.Service.{
  ValidUser, TokenPair, payload_of, login, issue_pair, refresh, logout, validate,
}
use aideep_backend.Auth.Tokens.{Tokens, Payload}
use aideep_backend.Infra.Action.{returned, thrown}
use aideep_backend.Infra.Exception.{Exception, unauthorized}
use aideep_backend.Infra.Platform.{Platform}
use aideep_backend.Infra.Redis.{ex}
use aideep_backend.Infra.Redis.Keys.{redis_key, refresh_token, blacklist}
use aideep_backend.Infra.Redis.Lookups.{get_set_same, get_del_same, get_set_other}
use aideep_backend.Infra.World.{World, redis_get, redis_set, redis_del}

module _ (P : Platform) (T : Tokens) where
  -- the one refresh token that is accepted of a user
  abbrev pub current_token : World P → String → Option String
  current_token w user_id = P.redis.get w.redis (redis_key refresh_token user_id)

  abbrev pub used : Exception
  used = unauthorized "만료되거나 이미 사용된 refresh token입니다."

  -- the tokens that are signed for a payload now
  abbrev pub pair_of : Payload → World P → TokenPair
  pair_of payload w = record {
    access_token = T.sign payload "15m" w.now;
    refresh_token = T.sign payload "7d" w.now;
  }

  abbrev pub with_token : String → String → World P → World P
  with_token user_id token w = record w {
    redis = P.redis.set w.redis (redis_key refresh_token user_id) token (ex 604800);
  }

  issue_pair-returned :
      (payload : Payload) (w : World P)
      → w.outages ≡ []
      → issue_pair P T payload w ≡ (
        returned (pair_of payload w),
        with_token payload.user_id (pair_of payload w).refresh_token w,
      )
  unfolding issue_pair redis_set
  issue_pair-returned payload w answers = rw answers refl

  -- a refresh of a token that is the user's current one
  refresh-current :
      (token : String) (payload : Payload) (w : World P)
      → w.outages ≡ []
      → T.verify token w.now ≡ some payload
      → current_token w payload.user_id ≡ some token
      → (token == "") ≡ false
      → refresh P T token w ≡ issue_pair P T (record payload { is_master = false }) w
  unfolding refresh redis_get
  refresh-current token payload w answers valid current nonempty =
      ground (arith, answers, valid, current, nonempty, eq_refl token)

  -- a refresh of any other token of the user
  refresh-used :
      (token stored : String) (payload : Payload) (w : World P)
      → w.outages ≡ []
      → T.verify token w.now ≡ some payload
      → current_token w payload.user_id ≡ some stored
      → (stored == token) ≡ false
      → refresh P T token w ≡ (thrown used, w)
  unfolding refresh redis_get
  refresh-used token stored payload w answers valid current differ =
      ground (arith, answers, valid, current, differ)

  refresh-missing :
      (token : String) (payload : Payload) (w : World P)
      → w.outages ≡ []
      → T.verify token w.now ≡ some payload
      → current_token w payload.user_id ≡ none
      → refresh P T token w ≡ (thrown used, w)
  unfolding refresh redis_get
  refresh-missing token payload w answers valid current = ground (arith, answers, valid, current)

  -- Redis answers, and the token is a valid, nonempty one that is the user's current one.
  pub record IsCurrent (token : String) (payload : Payload) (w : World P) : Type 0 where
    pub answers : w.outages ≡ []
    pub valid : T.verify token w.now ≡ some payload
    pub current : current_token w payload.user_id ≡ some token
    pub nonempty : (token == "") ≡ false

  module _ (payload : Payload) (w : World P) (answers : w.outages ≡ []) where
    abbrev issued : World P
    issued = with_token payload.user_id (pair_of payload w).refresh_token w

    issue_pair-IsCurrent : IsCurrent (pair_of payload w).refresh_token payload issued
    issue_pair-IsCurrent = record {
      answers = answers;
      valid = T.verify_sign payload "7d" w.now;
      current =
          get_set_same P.redis w.redis (redis_key refresh_token payload.user_id) _ (ex 604800);
      nonempty = T.sign_nonempty payload "7d" w.now;
    }

  -- While Redis answers, a login returns a pair of tokens whose refresh token is then the user's current one.
  pub login-IsCurrent :
      (user : ValidUser) (w : World P)
      → w.outages ≡ []
      → ((login P T user w).0 ≡ returned (pair_of (payload_of P T user) w))
        × IsCurrent
            (pair_of (payload_of P T user) w).refresh_token
            (payload_of P T user)
            (login P T user w).1
  unfolding login
  login-IsCurrent user w answers =
      rw (issue_pair-returned (payload_of P T user) w answers)
        (refl, issue_pair-IsCurrent (payload_of P T user) w answers)

  module _ (token : String) (payload : Payload) (w : World P) (c : IsCurrent token payload w) where
    -- what the new tokens are signed for
    abbrev pub renewed : Payload
    renewed = record payload { is_master = false }

    refresh-returned :
        refresh P T token w ≡ (returned (pair_of renewed w), issued renewed w c.answers)
    refresh-returned =
        refresh-current token payload w c.answers c.valid c.current c.nonempty
        ∙ issue_pair-returned renewed w c.answers

    -- A refresh with the user's current token while Redis answers returns a new pair of tokens, whose refresh token is then the user's current one.
    pub refresh-IsCurrent :
        ((refresh P T token w).0 ≡ returned (pair_of renewed w))
        × IsCurrent (pair_of renewed w).refresh_token renewed (refresh P T token w).1
    refresh-IsCurrent = rw refresh-returned (refl, issue_pair-IsCurrent renewed w c.answers)

    -- Where a refresh with the current token issues a token that differs from it, a second refresh with the old token is refused and changes nothing.
    pub refresh-thrown :
        ((pair_of renewed w).refresh_token == token) ≡ false
        → refresh P T token (refresh P T token w).1 ≡ (thrown used, (refresh P T token w).1)
    refresh-thrown differ = rw refresh-returned (
        refresh-used token _ payload (issued renewed w c.answers) c.answers c.valid
          (issue_pair-IsCurrent renewed w c.answers).current differ)

  module _ (user_id access_token : String) (w : World P) where
    abbrev pub logged_out : World P
    logged_out = record w {
      redis =
          P.redis.set (P.redis.del w.redis (redis_key refresh_token user_id))
            (redis_key blacklist access_token) "1" (ex 900);
    }

    pub logout-returned :
        w.outages ≡ [] → logout P T user_id access_token w ≡ (returned "로그아웃 성공", logged_out)
    unfolding logout redis_del redis_set
    logout-returned answers = rw answers refl

    logged_out-current_token : current_token logged_out user_id ≡ none
    logged_out-current_token =
        get_set_other P.redis _ blacklist refresh_token access_token user_id "1" (ex 900) (λ e. cc)
        ∙ get_del_same P.redis w.redis (redis_key refresh_token user_id)

  pub validate-blacklisted :
      (token : String) (payload : Payload) (w : World P)
      → w.outages ≡ []
      → P.redis.get w.redis (redis_key blacklist token) ≡ some "1"
      → validate P T token payload w ≡ (thrown (unauthorized "만료된 토큰입니다."), w)
  unfolding validate redis_get
  validate-blacklisted token payload w answers listed = ground (arith, answers, listed)

  -- behind a logout every valid refresh token of the user is refused
  pub refresh-logged_out :
      (access_token token : String) (payload : Payload) (w : World P)
      → w.outages ≡ []
      → T.verify token w.now ≡ some payload
      → let t = logged_out payload.user_id access_token w in refresh P T token t ≡ (thrown used, t)
  refresh-logged_out access_token token payload w answers valid =
      refresh-missing token payload (logged_out payload.user_id access_token w) answers valid
        (logged_out-current_token payload.user_id access_token w)

  -- While Redis answers, behind a logout the access token is refused by every guarded request, and every valid refresh token of the user is refused.
  pub logout-thrown :
      (access_token token : String) (payload guarded : Payload) (w : World P)
      → w.outages ≡ []
      → T.verify token w.now ≡ some payload
      → let t = (logout P T payload.user_id access_token w).1 in
        ((logout P T payload.user_id access_token w).0 ≡ returned "로그아웃 성공")
        × (validate P T access_token guarded t ≡ (thrown (unauthorized "만료된 토큰입니다."), t))
        × (refresh P T token t ≡ (thrown used, t))
  logout-thrown access_token token payload guarded w answers valid =
      let t : World P = logged_out payload.user_id access_token w in
      rw (logout-returned payload.user_id access_token w answers) (
        refl,
        validate-blacklisted access_token guarded t answers
            (get_set_same P.redis _ (redis_key blacklist access_token) "1" (ex 900)),
        refresh-logged_out access_token token payload w answers valid,
      )
