-- ===== src/Auth/Ports.antt =====
-- auth_service/application/ports and dto, the world that a use case runs in, and what stands
-- outside the repository: SHA-256, Redis and the JWT library.
use cbir_engine.Auth.Entities.{Time}
use cbir_engine.Base.{Bool, List, Option, String, Text, ℕ, ℤ}
use cbir_engine.Kernel.Json.{Dict}

pub record RateLimitDecision : Type 0 where
  pub allowed : Bool
  pub limit_per_minute : ℕ
  pub remaining : ℕ
  pub retry_after_seconds : ℕ

pub record TokenClaims : Type 0 where
  pub tenant_id : Text
  pub api_key_id : Text
  pub scopes : List String
  pub plan_tier : String
  pub rate_limit_per_minute : ℕ

-- The claims of an access token. Those that the verifier reads with a default are optional.
pub record Payload : Type 0 where
  pub iss : String
  pub aud : String
  pub sub : Text
  pub iat : ℕ
  pub exp : ℕ
  pub key_id : Option Text
  pub scopes : Option (List String)
  pub plan_tier : Option String
  pub rate_limit_per_minute : Option ℕ

-- Code that is not the repository's. A Redis command takes the server's time in seconds and returns
-- `none` for a RedisError; the state comes back in either case. `jwt_decode` returns the payload
-- of a token with a good signature, expiry, issuer and audience, and `none` for a PyJWTError.
pub record Outside : Type 1 where
  pub Redis : Type 0
  pub sha256 : Text → Text
  pub incr_expire : Text → ℕ → ℕ → Redis → Option ℕ × Redis
  pub setex : Text → ℕ → ℕ → Redis → Bool × Redis
  pub exists_key : Text → ℕ → Redis → Option Bool
  pub jwt_encode : Payload → Text → Text
  pub jwt_decode : Text → Text → String → String → ℕ → Option Payload

pub record CreateTenantInput : Type 0 where
  pub name : Text
  pub plan_tier : String
  pub settings : Dict

pub record TenantOutput : Type 0 where
  pub id : Text
  pub name : Text
  pub plan_tier : String
  pub status : String
  pub settings : Dict
  pub created_at : Option Time
  pub updated_at : Option Time

pub record IssueApiKeyInput : Type 0 where
  pub tenant_id : Text
  pub name : Text
  pub scopes : Option (List String)
  pub rate_limit_per_minute : Option ℤ
  pub expires_in_days : Option ℤ

pub record ApiKeyMetadataOutput : Type 0 where
  pub id : Text
  pub tenant_id : Text
  pub name : Text
  pub scopes : List String
  pub status : String
  pub rate_limit_per_minute : ℕ
  pub created_at : Time
  pub expires_at : Option Time
  pub grace_expires_at : Option Time
  pub revoked_at : Option Time
  pub rotated_from_id : Option Text

pub record IssuedApiKeyOutput : Type 0 where
  pub api_key : Text
  pub metadata : ApiKeyMetadataOutput

pub record RateLimitStateOutput : Type 0 where
  pub limit_per_minute : ℕ
  pub remaining : ℕ

pub record AuthContextOutput : Type 0 where
  pub tenant_id : Text
  pub api_key_id : Text
  pub scopes : List String
  pub plan_tier : String
  pub rate_limit : RateLimitStateOutput

pub record AccessTokenOutput : Type 0 where
  pub access_token : Text
  pub token_type : String
  pub expires_in : ℕ
