-- ===== src/Auth/Credentials.antt =====
-- auth_service/application/use_cases/credentials.py and tokens.py: the two credential paths, which
-- end in one rate-limit check, and the exchange of a key for an access token.
pub mod Soundness
pub mod Acceptance
use cbir_engine.Auth.Entities.{ApiKey, Tenant, is_active, usability_at}
use cbir_engine.Auth.Gateways.{World, clock_now, keys_get, tenants_get}
use cbir_engine.Auth.Ports.{
  AccessTokenOutput, AuthContextOutput, Outside, RateLimitDecision, RateLimitStateOutput,
  TokenClaims,
}
use cbir_engine.Auth.RateLimit.{hit, is_revoked}
use cbir_engine.Auth.Secrets.{parse_full_key, verify_secret}
use cbir_engine.Auth.Tokens.{sign, verify}
use cbir_engine.Auth.ValueObjects.{
  AuthError, authentication_error, plan_tier_value, rate_limit_exceeded, value_error,
}
use cbir_engine.Base.{
  Bool, Exec, Option, Result, Text, codes, err, false, if◌then◌else◌, lift, none, not, ok, pure,
  require, some, true, ℕ, ◌++◌, ◌>>=◌, ◌>>◌,
}
use cbir_engine.Kernel.TenantId.{tenant_str}
use cbir_engine.Kernel.Uuid.{Uuid, uuid_str}

-- The settings that the use cases are built with.
pub record AuthSettings : Type 0 where
  pub jwt_secret : Text
  pub admin_token : Text
  pub access_token_ttl_seconds : ℕ
  pub api_key_grace_seconds : ℕ

abbrev pub key_bucket : Text → Text
key_bucket api_key_id = codes "key:" ++ api_key_id

abbrev pub present_decision : RateLimitDecision → Result AuthError RateLimitStateOutput
present_decision d =
    if d.allowed
    then ok (record { limit_per_minute = d.limit_per_minute; remaining = d.remaining })
    else err (rate_limit_exceeded d.limit_per_minute d.retry_after_seconds)

abbrev pub parsed_key : Text → Result AuthError (Uuid × Text)
parsed_key presented = elim (parse_full_key presented) [
  | some p ↦ ok p
  | none ↦ err (authentication_error "credential is not a valid platform API key")
]

-- The answer of verify_secret for a stored key.
abbrev pub judged : ApiKey → Option Bool → Result AuthError ApiKey
judged k none = err value_error
judged k (some true) = ok k
judged k (some false) = err (authentication_error "invalid API key")

-- The same error for an unknown id and a bad secret; a secret that is not ASCII raises.
abbrev pub verified : (Text → Text) → Text → Option ApiKey → Result AuthError ApiKey
verified sha256 secret none = err (authentication_error "invalid API key")
verified sha256 secret (some k) = judged k (verify_secret sha256 secret k.secret_hash)

abbrev pub active_tenant : Option Tenant → Result AuthError Tenant
active_tenant none = err (authentication_error "tenant account is not active")
active_tenant (some t) =
    if is_active t then ok t else err (authentication_error "tenant account is not active")

module _ (o : Outside) where
  unfoldable pub enforce_rate_limit : Text → ℕ → Exec (World o.Redis) AuthError RateLimitStateOutput
  enforce_rate_limit api_key_id limit = do
    decision ← hit o (key_bucket api_key_id) limit
    lift (present_decision decision)

  -- ValidateApiKeyCredential.execute
  unfoldable pub validate_api_key : Text → Exec (World o.Redis) AuthError AuthContextOutput
  validate_api_key presented = do
    (key_id, secret) ← lift (parsed_key presented)
    found ← keys_get key_id
    key ← lift (verified o.sha256 secret found)
    now ← clock_now
    let usable = usability_at key now
    require usable.0 (authentication_error usable.1)
    tenant_found ← tenants_get key.tenant_id
    tenant ← lift (active_tenant tenant_found)
    decision ← enforce_rate_limit (uuid_str key.id) key.rate_limit.requests_per_minute
    pure (record {
      tenant_id = tenant_str key.tenant_id;
      api_key_id = uuid_str key.id;
      scopes = key.scopes;
      plan_tier = plan_tier_value tenant.tier;
      rate_limit = decision;
    })

  -- ValidateAccessTokenCredential.execute
  unfoldable pub validate_access_token :
      AuthSettings → Text → Exec (World o.Redis) AuthError AuthContextOutput
  validate_access_token settings token = do
    claims ← verify o settings.jwt_secret token
    gone ← is_revoked o claims.api_key_id
    require (not gone) (authentication_error "access token's API key has been revoked")
    decision ← enforce_rate_limit claims.api_key_id claims.rate_limit_per_minute
    pure (record {
      tenant_id = claims.tenant_id;
      api_key_id = claims.api_key_id;
      scopes = claims.scopes;
      plan_tier = claims.plan_tier;
      rate_limit = decision;
    })

  abbrev pub claims_for : AuthContextOutput → TokenClaims
  claims_for c = record {
    tenant_id = c.tenant_id;
    api_key_id = c.api_key_id;
    scopes = c.scopes;
    plan_tier = c.plan_tier;
    rate_limit_per_minute = c.rate_limit.limit_per_minute;
  }

  -- IssueAccessToken.execute
  unfoldable pub issue_access_token :
      AuthSettings → Text → Exec (World o.Redis) AuthError AccessTokenOutput
  issue_access_token settings presented = do
    context ← validate_api_key presented
    token ← sign o settings.jwt_secret (claims_for context) settings.access_token_ttl_seconds
    pure (record {
      access_token = token;
      token_type = "bearer";
      expires_in = settings.access_token_ttl_seconds;
    })
