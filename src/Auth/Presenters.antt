-- ===== src/Auth/Presenters.antt =====
-- auth_service/interface_adapters/presenters: the responses of auth-service.
use cbir_engine.Auth.Entities.{Time}
use cbir_engine.Auth.Ports.{
  AccessTokenOutput, ApiKeyMetadataOutput, AuthContextOutput, IssuedApiKeyOutput, TenantOutput,
}
use cbir_engine.Base.{List, Option, String, Text, ℕ}
use cbir_engine.Kernel.Json.{Dict}

pub record TenantResponse : Type 0 where
  pub id : Text
  pub name : Text
  pub plan_tier : String
  pub status : String
  pub settings : Dict
  pub created_at : Option Time
  pub updated_at : Option Time

pub record ApiKeyMetadataResponse : Type 0 where
  pub id : Text
  pub tenant_id : Text
  pub name : Text
  pub scopes : List String
  pub status : String
  pub rate_limit_per_minute : ℕ
  pub created_at : Time
  pub expires_at : Option Time
  pub grace_expires_at : Option Time
  pub revoked_at : Option Time
  pub rotated_from_id : Option Text

pub record IssuedApiKeyResponse : Type 0 where
  pub api_key : Text
  pub note : String
  pub metadata : ApiKeyMetadataResponse

pub record RateLimitStateResponse : Type 0 where
  pub limit_per_minute : ℕ
  pub remaining : ℕ

pub record ValidatedContextResponse : Type 0 where
  pub tenant_id : Text
  pub api_key_id : Text
  pub scopes : List String
  pub plan_tier : String
  pub rate_limit : RateLimitStateResponse

pub record AccessTokenResponse : Type 0 where
  pub access_token : Text
  pub token_type : String
  pub expires_in : ℕ

unfoldable pub tenant_response : TenantOutput → TenantResponse
tenant_response d = record {
  id = d.id;
  name = d.name;
  plan_tier = d.plan_tier;
  status = d.status;
  settings = d.settings;
  created_at = d.created_at;
  updated_at = d.updated_at;
}

unfoldable pub key_metadata_response : ApiKeyMetadataOutput → ApiKeyMetadataResponse
key_metadata_response d = record {
  id = d.id;
  tenant_id = d.tenant_id;
  name = d.name;
  scopes = d.scopes;
  status = d.status;
  rate_limit_per_minute = d.rate_limit_per_minute;
  created_at = d.created_at;
  expires_at = d.expires_at;
  grace_expires_at = d.grace_expires_at;
  revoked_at = d.revoked_at;
  rotated_from_id = d.rotated_from_id;
}

unfoldable pub issued_key_response : IssuedApiKeyOutput → IssuedApiKeyResponse
issued_key_response d = record {
  api_key = d.api_key;
  note = "Store this key now — it is shown only once and only its hash is kept server-side.";
  metadata = key_metadata_response d.metadata;
}

unfoldable pub auth_context_response : AuthContextOutput → ValidatedContextResponse
auth_context_response d = record {
  tenant_id = d.tenant_id;
  api_key_id = d.api_key_id;
  scopes = d.scopes;
  plan_tier = d.plan_tier;
  rate_limit = record {
    limit_per_minute = d.rate_limit.limit_per_minute;
    remaining = d.rate_limit.remaining;
  };
}

unfoldable pub access_token_response : AccessTokenOutput → AccessTokenResponse
access_token_response d = record {
  access_token = d.access_token;
  token_type = d.token_type;
  expires_in = d.expires_in;
}
