-- ===== src/Auth/Guard.antt =====
-- Who may make a request: auth/strategy/jwt.strategy.ts behind auth/guards/jwt.guards.ts, and
-- auth/strategy/local.strategy.ts behind auth/guards/local.guards.ts.
use aideep_backend.Common.{String, Option, none, some}
use aideep_backend.Auth.Service.{ValidUser, validate, validate_user}
use aideep_backend.Auth.Tokens.{Tokens, Payload}
use aideep_backend.Infra.Action.{returned, or_throw, ◌>>=◌}
use aideep_backend.Infra.Exception.{Exception, unauthorized}
use aideep_backend.Infra.Platform.{Platform}
use aideep_backend.Infra.World.{Handler}

-- what the guard and `logout` read of a request: the header, and `req.query.token`
pub record Credentials : Type 0 where
  pub authorization : Option String
  pub query_token : Option String

-- what the guard throws of itself
abbrev pub no_session : Exception
no_session = unauthorized "Unauthorized"

module _ (P : Platform) (T : Tokens) where
  -- `@UseGuards(LocalAuthGuard)`
  unfoldable pub authenticate_local : String → String → Handler P ValidUser
  authenticate_local email password = validate_user P T email password

module _ (P : Platform) (T : Tokens) (bearer : String → Option String) where
  -- `ExtractJwt.fromAuthHeaderAsBearerToken()`, where `bearer` takes the header apart
  abbrev pub bearer_token : Option String → Option String
  bearer_token none = none
  bearer_token (some header) = bearer header

  -- `fromAuthHeaderAsBearerToken()(req) ?? req.query?.token ?? null`
  abbrev pub token_of : Credentials → Option String
  token_of c = elim (bearer_token c.authorization) [ none ↦ c.query_token | some t ↦ some t ]

  -- `jwtService.verify` of the strategy, now
  abbrev pub verified_now : String → Handler P (Option Payload)
  verified_now token w = (returned (T.verify token w.now), w)

  -- `@UseGuards(JwtAuthGuard)`
  unfoldable pub authenticate : Credentials → Handler P Payload
  authenticate c = do
    token ← or_throw (token_of c) no_session
    valid ← verified_now token
    payload ← or_throw valid no_session
    validate P T token payload
