-- ===== src/Auth/Fixtures.antt =====
-- A tenant, one of its keys and a world that holds both, for concrete runs of auth-service.
use cbir_engine.Auth.Credentials.{AuthSettings}
use cbir_engine.Auth.Entities.{ApiKey, Tenant}
use cbir_engine.Auth.Gateways.{World}
use cbir_engine.Auth.Ports.{IssueApiKeyInput, Outside}
use cbir_engine.Auth.Rows.{api_key_to_row, tenant_to_row}
use cbir_engine.Auth.ValueObjects.{ApiKeyStatus, RateLimitPolicy, TenantStatus, standard}
use cbir_engine.Base.{[], codes, false, none, pos, refl, some, suc, true, ℕ, ◌∷◌}
use cbir_engine.Base.Strings.{Lacks}
use cbir_engine.Kernel.TenantId.{tenant_str}

abbrev pub memory : Outside
memory = record {
  Redis = ℕ;
  sha256 = λ s. 1 ∷ s;
  incr_expire = λ key ttl now r. (some (suc r), suc r);
  setex = λ key ttl now r. (true, r);
  exists_key = λ key now r. some false;
  jwt_encode = λ p secret. secret;
  jwt_decode = λ token secret iss aud now. none;
}

abbrev pub settings : AuthSettings
settings = record {
  jwt_secret = codes "jwt";
  admin_token = codes "admin";
  access_token_ttl_seconds = 900;
  api_key_grace_seconds = 3600;
}

abbrev pub acme : Tenant
acme = record {
  id = record { value = 5 };
  name = codes "acme";
  tier = standard;
  status = TenantStatus.active;
  settings = [];
  created_at = some 1;
  updated_at = some 1;
}

abbrev pub policy : RateLimitPolicy
policy = record { requests_per_minute = 600 }

abbrev pub stored : ApiKey
stored = record {
  id = 9;
  tenant_id = record { value = 5 };
  name = codes "default";
  secret_hash = 1 ∷ codes "s3cret";
  scopes = "search:query" ∷ [];
  status = ApiKeyStatus.active;
  rate_limit = policy;
  created_at = 10;
  expires_at = some 500000000000;
  grace_expires_at = none;
  revoked_at = none;
  rotated_from_id = none;
}

abbrev pub start_world : World ℕ
start_world = record {
  tenants = tenant_to_row acme ∷ [];
  keys = api_key_to_row stored ∷ [];
  redis = 0;
  now = 120000000;
}

abbrev pub request : IssueApiKeyInput
request = record {
  tenant_id = tenant_str (record { value = 5 });
  name = codes "ci";
  scopes = none;
  rate_limit_per_minute = none;
  expires_in_days = some (pos 2);
}

pub secret_Lacks : Lacks 95 (codes "s3cret")
unfolding codes
secret_Lacks = (refl, (refl, (refl, (refl, (refl, (refl, tt))))))
