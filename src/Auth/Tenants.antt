-- ===== src/Auth/Tenants.antt =====
-- auth_service/application/use_cases/tenants.py
pub mod Names
use cbir_engine.Auth.Entities.{Tenant}
use cbir_engine.Auth.Gateways.{
  World, clock_now, tenants_add, tenants_get, tenants_get_by_name, tenants_list,
}
use cbir_engine.Auth.Ports.{CreateTenantInput, TenantOutput}
use cbir_engine.Auth.ValueObjects.{
  AuthError, TenantStatus, parse_plan_tier, plan_tier_value, tenant_name_conflict, tenant_not_found,
  tenant_status_value, value_error,
}
use cbir_engine.Base.{
  Exec, List, Option, Result, Text, err, is_blank, is_some, lift, map, none, not, ok, pure, require,
  some, ℤ, ◌>>=◌, ◌>>◌,
}
use cbir_engine.Base.Strings.{strip}
use cbir_engine.Kernel.TenantId.{TenantId, new_tenant, parse_tenant, tenant_str}
use cbir_engine.Kernel.Uuid.{Uuid}

abbrev pub present_tenant : Tenant → TenantOutput
present_tenant t = record {
  id = tenant_str t.id;
  name = t.name;
  plan_tier = plan_tier_value t.tier;
  status = tenant_status_value t.status;
  settings = t.settings;
  created_at = t.created_at;
  updated_at = t.updated_at;
}

-- TenantId.parse, with InvalidTenantIdError turned into TenantNotFoundError
abbrev pub known_tenant_id : Text → Result AuthError TenantId
known_tenant_id raw = elim (parse_tenant raw) [ some t ↦ ok t | none ↦ err (tenant_not_found raw) ]

abbrev pub found_tenant : Text → Option Tenant → Result AuthError Tenant
found_tenant raw none = err (tenant_not_found raw)
found_tenant raw (some t) = ok t

module _ {R : Type 0} where
  -- CreateTenant.execute; `fresh` is the value of uuid4
  unfoldable pub create_tenant : Uuid → CreateTenantInput → Exec (World R) AuthError TenantOutput
  create_tenant fresh d = do
    let name = strip d.name
    require (not (is_blank name)) value_error
    other ← tenants_get_by_name name
    require (not (is_some other)) (tenant_name_conflict name)
    now ← clock_now
    tier ← lift (parse_plan_tier d.plan_tier)
    let tenant : Tenant = record {
      id = new_tenant fresh;
      name = name;
      tier = tier;
      status = TenantStatus.active;
      settings = d.settings;
      created_at = some now;
      updated_at = some now;
    }
    tenants_add tenant
    pure (present_tenant tenant)

  -- GetTenant.execute
  unfoldable pub get_tenant : Text → Exec (World R) AuthError TenantOutput
  get_tenant raw = do
    tenant_id ← lift (known_tenant_id raw)
    found ← tenants_get tenant_id
    tenant ← lift (found_tenant raw found)
    pure (present_tenant tenant)

  -- ListTenants.execute
  unfoldable pub list_tenants : ℤ → ℤ → Exec (World R) AuthError (List TenantOutput)
  list_tenants limit offset = do
    tenants ← tenants_list limit offset
    pure (map present_tenant tenants)
