-- ===== src/Auth/Gateways.antt =====
-- auth_service/interface_adapters/gateways: the queries of the two repositories, over the rows of
-- the two tables. A write that breaks a primary key, the unique name or the foreign key raises
-- IntegrityError.
pub mod Lookup
use cbir_engine.Auth.Entities.{ApiKey, Tenant, Time}
use cbir_engine.Auth.Rows.{
  ApiKeyRow, TenantRow, api_key_to_row, row_to_api_key, row_to_tenant, tenant_to_row,
}
use cbir_engine.Auth.ValueObjects.{AuthError, database_error, integrity_error}
use cbir_engine.Base.{
  Exec, List, Option, Result, Text, [], any, drop, err, find_first, gets, if◌then◌else◌, is_some,
  lift, modify, none, not, ok, or_else, pos, require, select, some, sort_on, take, text_eq, ℤ, ◌&&◌,
  ◌++◌, ◌==◌, ◌>>=◌, ◌>>◌, ◌||◌, ◌∷◌,
}
use cbir_engine.Kernel.TenantId.{TenantId}
use cbir_engine.Kernel.Uuid.{Uuid}

-- The tables, Redis and the clock.
pub record World (R : Type 0) : Type 0 where
  pub tenants : List TenantRow
  pub keys : List ApiKeyRow
  pub redis : R
  pub now : Time

abbrev pub loaded : {A : Type 0} → Result AuthError A → Result AuthError (Option A)
loaded (ok a) = ok (some a)
loaded (err e) = err e

abbrev pub tenant_of : Option TenantRow → Result AuthError (Option Tenant)
tenant_of none = ok none
tenant_of (some r) = loaded (row_to_tenant r)

abbrev pub api_key_of : Option ApiKeyRow → Result AuthError (Option ApiKey)
api_key_of none = ok none
api_key_of (some r) = loaded (row_to_api_key r)

abbrev pub tenants_of : List TenantRow → Result AuthError (List Tenant)
tenants_of [] = ok []
tenants_of (r ∷ rs) =
    let rest = tenants_of rs in
    elim (row_to_tenant r) [
      | ok t ↦ elim rest [ ok ts ↦ ok (t ∷ ts) | err e ↦ err e ]
      | err e ↦ err e
    ]

abbrev pub api_keys_of : List ApiKeyRow → Result AuthError (List ApiKey)
api_keys_of [] = ok []
api_keys_of (r ∷ rs) =
    let rest = api_keys_of rs in
    elim (row_to_api_key r) [
      | ok k ↦ elim rest [ ok ks ↦ ok (k ∷ ks) | err e ↦ err e ]
      | err e ↦ err e
    ]

-- A page of a query: a negative LIMIT or OFFSET is an error of the database.
abbrev pub page : {A : Type 0} → ℤ → ℤ → List A → Result AuthError (List A)
page (pos l) (pos o) xs = ok (take l (drop o xs))
page _ _ xs = err database_error

abbrev pub created : TenantRow → Time
created r = or_else r.created_at 0

abbrev pub tenant_row : Uuid → List TenantRow → Option TenantRow
tenant_row u = find_first (λ r. r.id == u)

abbrev pub key_row : Uuid → List ApiKeyRow → Option ApiKeyRow
key_row u = find_first (λ r. r.id == u)

-- session.merge: the row with the same primary key is overwritten, or a new one is inserted
abbrev pub merge_key : ApiKeyRow → List ApiKeyRow → List ApiKeyRow
merge_key r [] = r ∷ []
merge_key r (x ∷ xs) = let rest = merge_key r xs in if x.id == r.id then r ∷ xs else x ∷ rest

module _ {R : Type 0} where
  abbrev pub clock_now : Exec (World R) AuthError Time
  clock_now = gets (λ w. w.now)

  unfoldable pub tenants_add : Tenant → Exec (World R) AuthError (Unit {0})
  tenants_add t = do
    rows ← gets (λ w. w.tenants)
    require (not (any (λ (r : TenantRow). r.id == t.id.value || text_eq r.name t.name) rows))
        integrity_error
    modify (λ w. record w { tenants = w.tenants ++ (tenant_to_row t ∷ []) })

  unfoldable pub tenants_get : TenantId → Exec (World R) AuthError (Option Tenant)
  tenants_get t w = (tenant_of (tenant_row t.value w.tenants), w)

  unfoldable pub tenants_get_by_name : Text → Exec (World R) AuthError (Option Tenant)
  tenants_get_by_name name w =
      (tenant_of (find_first (λ (r : TenantRow). text_eq r.name name) w.tenants), w)

  unfoldable pub tenants_list : ℤ → ℤ → Exec (World R) AuthError (List Tenant)
  tenants_list limit offset = do
    rows ← gets (λ w. w.tenants)
    rows' ← lift (page limit offset (sort_on created rows))
    lift (tenants_of rows')

  unfoldable pub keys_add : ApiKey → Exec (World R) AuthError (Unit {0})
  keys_add k = do
    w ← gets (λ w. w)
    require
        (not (is_some (key_row k.id w.keys)) && is_some (tenant_row k.tenant_id.value w.tenants))
        integrity_error
    modify (λ w. record w { keys = w.keys ++ (api_key_to_row k ∷ []) })

  unfoldable pub keys_get : Uuid → Exec (World R) AuthError (Option ApiKey)
  keys_get u w = (api_key_of (key_row u w.keys), w)

  unfoldable pub keys_update : ApiKey → Exec (World R) AuthError (Unit {0})
  keys_update k = modify (λ w. record w { keys = merge_key (api_key_to_row k) w.keys })

  unfoldable pub keys_list_for_tenant : TenantId → Exec (World R) AuthError (List ApiKey)
  keys_list_for_tenant t = do
    rows ← gets (λ w. w.keys)
    let mine = select (λ (r : ApiKeyRow). r.tenant_id == t.value) rows
    lift (api_keys_of (sort_on (λ (r : ApiKeyRow). r.created_at) mine))
