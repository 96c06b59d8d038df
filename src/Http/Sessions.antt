-- ===== src/Http/Sessions.antt =====
-- Which requests have a session, and what a logout does to that.
use Prim.Native.Char.{Char}
use Prim.Native.String.{◌++◌ as ◌++ˢ◌}
use aideep_backend.Common.{
  String, ◌≡◌, refl, sym, ap, ◌∙◌, subst, true, false, eq-cases, eq_refl, ◌≢◌, Option, none, some,
  List, [], ◌∷◌, ◌⊎◌, inl, inr, ◌==◌, arith, chars, text_of, text_of-chars, take_out, strip,
  strip-append,
}
use aideep_backend.Auth.Controller as AuthController
use aideep_backend.Auth.Controller.{without_bearer, header_of}
use aideep_backend.Auth.Guard.{Credentials, token_of, authenticate}
use aideep_backend.Auth.Service as Service
use aideep_backend.Auth.Service.{validate}
use aideep_backend.Auth.Service.Sessions.{
  logged_out, logout-returned, validate-blacklisted, used, refresh-logged_out,
}
use aideep_backend.Auth.Tokens.{Tokens, Payload}
use aideep_backend.Http.Routes as Routes
use aideep_backend.Http.Routes.{Route, Codecs, Reply, run_route, request}
use aideep_backend.Infra.Action.{returned, thrown}
use aideep_backend.Infra.Exception.{unauthorized}
use aideep_backend.Infra.Platform.{Platform}
use aideep_backend.Infra.Redis.{ex}
use aideep_backend.Infra.Redis.Keys.{redis_key, blacklist, refresh_token, redis_key_injective}
use aideep_backend.Infra.Redis.Lookups.{get_set_same, get_del_other}
use aideep_backend.Infra.Text.Digits.{chars-append}
use aideep_backend.Infra.World.{World, redis_get}

take_out-found :
    (p : List Char) (c : Char) (l r : List Char) → strip p (c ∷ l) ≡ some r → take_out p (c ∷ l) ≡ r
take_out-found p c l r h = rw h refl

-- `logout` reads the token of a header that has its usual form
without_bearer-append : (token : String) → without_bearer ("Bearer " ++ˢ token) ≡ token
without_bearer-append token =
    ap (λ l. text_of (take_out (chars "Bearer ") l)) (chars-append "Bearer " token)
    ∙ ap text_of (
        take_out-found (chars "Bearer ") "B" ("e" ∷ "a" ∷ "r" ∷ "e" ∷ "r" ∷ " " ∷ chars token) _
          (strip-append (chars "Bearer ") (chars token)))
    ∙ text_of-chars token

module _ (P : Platform) (T : Tokens) (C : Codecs P.Num) (bearer : String → Option String) where
  -- the request brings no token, or one that is not valid, or one that was logged out
  abbrev pub HasNoSession : Credentials → World P → Type 0
  HasNoSession c w =
      (token_of P T bearer c ≡ none)
      ⊎ ((token : String) × (token_of P T bearer c ≡ some token)
          × ((T.verify token w.now ≡ none)
              ⊎ ((w.outages ≡ []) × (P.redis.get w.redis (redis_key blacklist token) ≡ some "1"))))

  -- Every request behind the guard that brings no token, an invalid one, or one that was logged out while Redis answers is refused as unauthorized, whatever its route and body are, and changes nothing.
  pub request-unauthorized :
      (c : Credentials) (route : Route P.Num) (w : World P)
      → HasNoSession c w
      → (text : String) × (request P T C bearer c route w ≡ (thrown (unauthorized text), w))
  unfolding request authenticate
  request-unauthorized c route w (inl missing) = ("Unauthorized", rw missing refl)
  request-unauthorized c route w (inr (token, brought, inl invalid)) =
      ("Unauthorized", rw (brought, invalid) refl)
  request-unauthorized c route w (inr (token, brought, inr (answers, listed))) =
      listed_now (T.verify token w.now) refl
    where
      listed_now :
          (o : Option Payload)
          → T.verify token w.now ≡ o
          → (text : String) × (request P T C bearer c route w ≡ (thrown (unauthorized text), w))
      listed_now none invalid = ("Unauthorized", rw (brought, invalid) refl)
      listed_now (some p) valid = (
        "만료된 토큰입니다.",
        rw (brought, valid, validate-blacklisted P T token p w answers listed) refl,
      )

  validate-clear :
      (token : String) (p : Payload) (w : World P)
      → w.outages ≡ []
      → P.redis.get w.redis (redis_key blacklist token) ≡ none
      → validate P T token p w ≡ (returned p, w)
  unfolding validate redis_get
  validate-clear token p w answers clear = ground (arith, answers, clear)

  -- the token is valid and was not logged out, and Redis answers
  pub record IsLive (token : String) (p : Payload) (w : World P) : Type 0 where
    pub valid : T.verify token w.now ≡ some p
    pub clear : P.redis.get w.redis (redis_key blacklist token) ≡ none
    pub answers : w.outages ≡ []

  module _ (token : String) (p : Payload) (w : World P) (live : IsLive token p w) where
    pub authenticate-live :
        (c : Credentials)
        → token_of P T bearer c ≡ some token
        → authenticate P T bearer c w ≡ (returned p, w)
    unfolding authenticate
    authenticate-live c brought =
        rw (brought, live.valid) (validate-clear token p w live.answers live.clear)

    request-logout :
        (c : Credentials)
        → token_of P T bearer c ≡ some token
        → request P T C bearer c Routes.logout w ≡ (
          returned (Routes.message "로그아웃 성공"),
          logged_out P T p.user_id (without_bearer (header_of c.authorization)) w,
        )
    unfolding request authenticate run_route AuthController.logout
    request-logout c brought =
        rw
          (
            brought,
            live.valid,
            validate-clear token p w live.answers live.clear,
            logout-returned P T p.user_id (without_bearer (header_of c.authorization)) w
                live.answers,
          )
          refl

    -- Where a session logs out with the header "Bearer <token>" while Redis answers, the logout returns; a request that brings the same token, by header or by query, is refused as unauthorized and changes nothing in any later state in which Redis answers and holds what it held directly behind the logout, whatever else has changed; and a refresh directly behind the logout is refused for any valid refresh token of the user.
    pub request-logged_out :
        (header : String) (later : Credentials) (route : Route P.Num) (renewal : String)
        (q : Payload) (v : World P)
        → header ≡ "Bearer " ++ˢ token
        → bearer header ≡ some token
        → token_of P T bearer later ≡ some token
        → T.verify renewal w.now ≡ some q
        → q.user_id ≡ p.user_id
        → v.redis
          ≡ (request P T C bearer
              (record { authorization = some header; query_token = none })
              Routes.logout
              w).1.redis
        → v.outages ≡ []
        → let c : Credentials = record { authorization = some header; query_token = none } in
          let r = request P T C bearer c Routes.logout w in
          (r.0 ≡ returned (Routes.message "로그아웃 성공"))
          × ((text : String) × (request P T C bearer later route v
                ≡ (thrown (unauthorized text), v)))
          × (Service.refresh P T renewal r.1 ≡ (thrown (used P T), r.1))
    request-logged_out header later route renewal q v usual brought again valid same_user held
          answers =
        let c : Credentials = record { authorization = some header; query_token = none } in
        let done = request-logout c (rw (token_of, brought) refl) in
        let r = request P T C bearer c Routes.logout w in
        let read : without_bearer header ≡ token =
          ap without_bearer usual ∙ without_bearer-append token in
        let listed = get_set_same P.redis _ (redis_key blacklist token) "1" (ex 900) in
        let same =
          done
          ∙ ap (λ t. (returned (Routes.message "로그아웃 성공"), logged_out P T p.user_id t w)) read in
        let kept =
          ap (λ r. P.redis.get r (redis_key blacklist token)) (held ∙ ap (λ o. o.1.redis) same)
          ∙ listed in
        let refused =
          request-unauthorized later route v (inr (token, again, inr (answers, kept))) in
        let renewed =
          subst
            (λ u.
              Service.refresh P T renewal (logged_out P T u token w)
              ≡ (thrown (used P T), logged_out P T u token w))
            same_user (refresh-logged_out P T token renewal q w live.answers valid) in
        (
          ap (λ o. o.0) same,
          refused,
          subst (λ o. Service.refresh P T renewal o.1 ≡ (thrown (used P T), o.1)) (sym same)
              renewed,
        )

    -- the key of no token is not that of the token
    still_clear :
        (token == "") ≡ false
        → P.redis.get (logged_out P T p.user_id "" w).redis (redis_key blacklist token) ≡ none
    still_clear named =
        P.redis.get_set (P.redis.del w.redis (redis_key refresh_token p.user_id))
          (redis_key blacklist "") "1" (ex 900) (redis_key blacklist token)
        ∙ rw (other (eq-cases (redis_key blacklist "") (redis_key blacklist token))) (
            get_del_other P.redis w.redis refresh_token blacklist p.user_id token (λ e. cc)
            ∙ live.clear)
      where
        other :
            (((redis_key blacklist "" == redis_key blacklist token) ≡ true)
                × (redis_key blacklist "" ≡ redis_key blacklist token))
              ⊎ (((redis_key blacklist "" == redis_key blacklist token) ≡ false)
                  × (redis_key blacklist "" ≢ redis_key blacklist token))
            → (redis_key blacklist "" == redis_key blacklist token) ≡ false
        other (inr (differ, _)) = differ
        other (inl (_, same)) = absurd (
            cc (
              named,
              eq_refl "",
              ap (λ (t : String). t == "")
                  (redis_key_injective blacklist blacklist "" token same).1,
            ))

    still :
        (token == "") ≡ false
        → authenticate P T bearer
            (record { authorization = none; query_token = some token })
            (logged_out P T p.user_id "" w)
          ≡ (returned p, logged_out P T p.user_id "" w)
    unfolding authenticate
    still named =
        rw live.valid
          (validate-clear token p (logged_out P T p.user_id "" w) live.answers (still_clear named))

    -- Where a session brings its token by query only, as an event stream does, a logout while Redis answers returns but does not end it: the guard accepts the same request as before.
    pub authenticate-query_token :
        (token == "") ≡ false
        → let c : Credentials = record { authorization = none; query_token = some token } in
          let r = request P T C bearer c Routes.logout w in
          (r.0 ≡ returned (Routes.message "로그아웃 성공"))
          × (authenticate P T bearer c r.1 ≡ (returned p, r.1))
    authenticate-query_token named =
        let c : Credentials = record { authorization = none; query_token = some token } in
        let done = request-logout c refl in
        (
          ap (λ o. o.0) done,
          subst (λ o. authenticate P T bearer c o.1 ≡ (returned p, o.1)) (sym done) (still named),
        )
