-- ===== src/Kernel/TenantId.antt =====
-- shared/domain-kernel: the identity of a tenant.
use cbir_engine.Base.{Option, Text, none, some, ◌<◌, ◌≡◌}
use cbir_engine.Kernel.Uuid.{Uuid, uuid_limit, uuid_parse, uuid_str}
use cbir_engine.Kernel.Uuid.RoundTrip.{uuid_parse-uuid_str}

pub record TenantId : Type 0 where
  pub value : Uuid

-- What `TenantId.parse` tells apart: a TenantId, a UUID, or any other object, by its `str`.
pub data RawId : Type 0 where
  raw_tenant : TenantId → RawId
  raw_uuid : Uuid → RawId
  raw_text : Text → RawId

abbrev of_uuid : Option Uuid → Option TenantId
of_uuid none = none
of_uuid (some u) = some (record { value = u })

-- `none` stands for InvalidTenantIdError.
unfoldable pub parse_raw : RawId → Option TenantId
parse_raw (raw_tenant t) = some t
parse_raw (raw_uuid u) = some (record { value = u })
parse_raw (raw_text s) = of_uuid (uuid_parse s)

-- TenantId.parse of a text, as every use case calls it
abbrev pub parse_tenant : Text → Option TenantId
parse_tenant s = parse_raw (raw_text s)

-- TenantId.new, from the value of uuid4
abbrev pub new_tenant : Uuid → TenantId
new_tenant u = record { value = u }

-- str(tenant_id)
abbrev pub tenant_str : TenantId → Text
tenant_str t = uuid_str t.value

-- A printed tenant id is parsed as that tenant.
pub parse_tenant-tenant_str :
    (t : TenantId) → t.value < uuid_limit → parse_tenant (tenant_str t) ≡ some t
unfolding parse_raw
parse_tenant-tenant_str t h = rw (uuid_parse-uuid_str t.value h)
