-- ===== src/Auth/Tokens.antt =====
-- auth_service/infrastructure/security: access tokens over the JWT library of `Outside`, and
-- cbir_common/auth/jwt_contract, the names that signer and verifiers share.
use cbir_engine.Auth.Gateways.{World}
use cbir_engine.Auth.Ports.{Outside, Payload, TokenClaims}
use cbir_engine.Auth.RateLimit.{unix_time}
use cbir_engine.Auth.ValueObjects.{AuthError, authentication_error}
use cbir_engine.Base.{Exec, String, Text, [], err, none, ok, or_else, some, ℕ, ◌+◌}

abbrev pub jwt_issuer : String
jwt_issuer = "cbir-auth-service"

abbrev pub jwt_audience : String
jwt_audience = "cbir-platform"

unfoldable pub claims_of : Payload → TokenClaims
claims_of p = record {
  tenant_id = p.sub;
  api_key_id = or_else p.key_id [];
  scopes = or_else p.scopes [];
  plan_tier = or_else p.plan_tier "";
  rate_limit_per_minute = or_else p.rate_limit_per_minute 60;
}

unfoldable pub payload_for : TokenClaims → ℕ → ℕ → Payload
payload_for c ttl now = record {
  iss = jwt_issuer;
  aud = jwt_audience;
  sub = c.tenant_id;
  iat = now;
  exp = now + ttl;
  key_id = some c.api_key_id;
  scopes = some c.scopes;
  plan_tier = some c.plan_tier;
  rate_limit_per_minute = some c.rate_limit_per_minute;
}

module _ (o : Outside) where
  -- JwtTokenSigner.sign
  unfoldable pub sign : Text → TokenClaims → ℕ → Exec (World o.Redis) AuthError Text
  sign secret c ttl w = (ok (o.jwt_encode (payload_for c ttl (unix_time o w)) secret), w)

  -- JwtTokenVerifier.verify
  unfoldable pub verify : Text → Text → Exec (World o.Redis) AuthError TokenClaims
  verify secret token w = (
    elim (o.jwt_decode token secret jwt_issuer jwt_audience (unix_time o w)) [
      | some p ↦ ok (claims_of p)
      | none ↦ err (authentication_error "invalid or expired access token")
    ],
    w,
  )
