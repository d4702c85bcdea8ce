-- ===== src/Auth/Gateways/Lookup.antt =====
-- What a lookup finds after a row was added or merged.
use cbir_engine.Auth.Entities.{ApiKey, Tenant}
use cbir_engine.Auth.Gateways.{
  World, api_key_of, key_row, keys_get, loaded, merge_key, tenant_of, tenant_row, tenants_get,
}
use cbir_engine.Auth.Rows.{
  ApiKeyRow, api_key_to_row, row_to_api_key-api_key_to_row, row_to_tenant-tenant_to_row,
  tenant_to_row,
}
use cbir_engine.Base.{
  ==_refl, Bool-cases, List, [], ap, arith, false, inl, inr, is_some, ok, refl, some, ◌++◌, ◌==◌,
  ◌∙◌, ◌∷◌, ◌≡◌, ◌≤◌,
}
use cbir_engine.Kernel.TenantId.{TenantId}
use cbir_engine.Kernel.Uuid.{Uuid}

pub key_row-merge_key :
    (r : ApiKeyRow) (rows : List ApiKeyRow) → key_row r.id (merge_key r rows) ≡ some r
key_row-merge_key r [] = rw (==_refl r.id) refl
key_row-merge_key r (x ∷ rows) = elim (Bool-cases (x.id == r.id)) [
  | inl e ↦ rw e (rw (==_refl r.id) refl)
  | inr e ↦ rw e (rw e (key_row-merge_key r rows))
]

pub key_row-append :
    (u : Uuid) (rows : List ApiKeyRow) (r : ApiKeyRow)
    → is_some (key_row u rows) ≡ false
    → r.id ≡ u
    → key_row u (rows ++ (r ∷ [])) ≡ some r
key_row-append u [] r h e = ground arith
key_row-append u (x ∷ rows) r h e = ground (arith, key_row-append u rows r)

-- The key of a stored row.
pub keys_get-row :
    {R : Type 0} (u : Uuid) (k : ApiKey) (w : World R)
    → key_row u w.keys ≡ some (api_key_to_row k)
    → 1 ≤ k.rate_limit.requests_per_minute
    → keys_get u w ≡ (ok (some k), w)
unfolding keys_get
keys_get-row u k w h p =
    ap (λ r. (api_key_of r, w)) h ∙ ap (λ r. (loaded r, w)) (row_to_api_key-api_key_to_row k p)

-- The tenant of a stored row.
pub tenants_get-row :
    {R : Type 0} (t : Tenant) (id : TenantId) (w : World R)
    → tenant_row id.value w.tenants ≡ some (tenant_to_row t)
    → tenants_get id w ≡ (ok (some t), w)
unfolding tenants_get
tenants_get-row t id w h =
    ap (λ r. (tenant_of r, w)) h ∙ ap (λ r. (loaded r, w)) (row_to_tenant-tenant_to_row t)
