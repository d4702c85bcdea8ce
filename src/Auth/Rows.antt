-- ===== src/Auth/Rows.antt =====
-- auth_service/infrastructure/persistence and interface_adapters/mappers: the rows of the tables
-- `tenants` and `api_keys`, and the mapping between rows and entities.
use cbir_engine.Auth.Entities.{ApiKey, Tenant, Time}
use cbir_engine.Auth.ValueObjects.{
  ApiKeyStatus, AuthError, PlanTier, RateLimitPolicy, TenantStatus, api_key_status_value,
  make_rate_limit_policy, parse_api_key_status, parse_api_key_status-value, parse_plan_tier,
  parse_plan_tier-value, parse_tenant_status, parse_tenant_status-value, plan_tier_value,
  tenant_status_value,
}
use cbir_engine.Base.{List, Option, Result, String, Text, arith, err, ok, pos, ℤ, ◌≡◌, ◌≤◌}
use cbir_engine.Kernel.Json.{Dict}
use cbir_engine.Kernel.Uuid.{Uuid}

pub record TenantRow : Type 0 where
  pub id : Uuid
  pub name : Text
  pub plan_tier : String
  pub status : String
  pub settings : Dict
  pub created_at : Option Time
  pub updated_at : Option Time

pub record ApiKeyRow : Type 0 where
  pub id : Uuid
  pub tenant_id : Uuid
  pub name : Text
  pub secret_hash : Text
  pub scopes : List String
  pub status : String
  pub rate_limit_per_minute : ℤ
  pub created_at : Time
  pub expires_at : Option Time
  pub grace_expires_at : Option Time
  pub revoked_at : Option Time
  pub rotated_from_id : Option Uuid

abbrev pub tenant_to_row : Tenant → TenantRow
tenant_to_row t = record {
  id = t.id.value;
  name = t.name;
  plan_tier = plan_tier_value t.tier;
  status = tenant_status_value t.status;
  settings = t.settings;
  created_at = t.created_at;
  updated_at = t.updated_at;
}

abbrev pub build_tenant :
    TenantRow → Result AuthError PlanTier → Result AuthError TenantStatus → Result AuthError Tenant
build_tenant r (err e) s = err e
build_tenant r (ok p) (err e) = err e
build_tenant r (ok p) (ok s) = ok (record {
  id = record { value = r.id };
  name = r.name;
  tier = p;
  status = s;
  settings = r.settings;
  created_at = r.created_at;
  updated_at = r.updated_at;
})

-- The enums raise a ValueError on a text that no member has.
unfoldable pub row_to_tenant : TenantRow → Result AuthError Tenant
row_to_tenant r = build_tenant r (parse_plan_tier r.plan_tier) (parse_tenant_status r.status)

abbrev pub api_key_to_row : ApiKey → ApiKeyRow
api_key_to_row k = record {
  id = k.id;
  tenant_id = k.tenant_id.value;
  name = k.name;
  secret_hash = k.secret_hash;
  scopes = k.scopes;
  status = api_key_status_value k.status;
  rate_limit_per_minute = pos k.rate_limit.requests_per_minute;
  created_at = k.created_at;
  expires_at = k.expires_at;
  grace_expires_at = k.grace_expires_at;
  revoked_at = k.revoked_at;
  rotated_from_id = k.rotated_from_id;
}

abbrev build_api_key :
    ApiKeyRow
    → Result AuthError ApiKeyStatus
    → Result AuthError RateLimitPolicy
    → Result AuthError ApiKey
build_api_key r (err e) l = err e
build_api_key r (ok s) (err e) = err e
build_api_key r (ok s) (ok l) = ok (record {
  id = r.id;
  tenant_id = record { value = r.tenant_id };
  name = r.name;
  secret_hash = r.secret_hash;
  scopes = r.scopes;
  status = s;
  rate_limit = l;
  created_at = r.created_at;
  expires_at = r.expires_at;
  grace_expires_at = r.grace_expires_at;
  revoked_at = r.revoked_at;
  rotated_from_id = r.rotated_from_id;
})

unfoldable pub row_to_api_key : ApiKeyRow → Result AuthError ApiKey
row_to_api_key r =
    build_api_key r (parse_api_key_status r.status) (make_rate_limit_policy r.rate_limit_per_minute)

-- A stored tenant is read back as it was.
pub row_to_tenant-tenant_to_row : (t : Tenant) → row_to_tenant (tenant_to_row t) ≡ ok t
unfolding row_to_tenant
row_to_tenant-tenant_to_row t =
    rw (parse_plan_tier-value t.tier) (rw (parse_tenant_status-value t.status))

-- A stored key is read back as it was, if its rate limit is one that the policy allows.
pub row_to_api_key-api_key_to_row :
    (k : ApiKey) → 1 ≤ k.rate_limit.requests_per_minute → row_to_api_key (api_key_to_row k) ≡ ok k
unfolding row_to_api_key make_rate_limit_policy
row_to_api_key-api_key_to_row k h = rw (parse_api_key_status-value k.status) (ground arith)
