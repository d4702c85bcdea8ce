-- ===== src/Auth/Tenants/Names.antt =====
-- CreateTenant and the unique constraints of the table `tenants`.
use cbir_engine.Auth.Entities.{Tenant}
use cbir_engine.Auth.Gateways.{World}
use cbir_engine.Auth.Ports.{TenantOutput}
use cbir_engine.Auth.Rows.{TenantRow}
use cbir_engine.Auth.ValueObjects.{AuthError, integrity_error, tenant_name_conflict, value_error}
use cbir_engine.Base.{
  Bool, List, Option, Result, Text, [], any, err, false, is_some, ok, text_eq, true, ◌==◌, ◌||◌,
  ◌∷◌, ◌≡◌, ◌⊎◌,
}
use cbir_engine.Kernel.Uuid.{Uuid}

-- Two rows that the unique constraints of `tenants` keep apart.
abbrev pub collides : TenantRow → TenantRow → Bool
collides n r = r.id == n.id || text_eq r.name n.name

abbrev pub AreDistinct : List TenantRow → Type 0
AreDistinct [] = Unit
AreDistinct (r ∷ rs) = (any (collides r) rs ≡ false) × AreDistinct rs

abbrev error_or : {A : Type 0} → AuthError → Result AuthError A → AuthError
error_or d (ok a) = d
error_or d (err e) = e

abbrev found_in : Result AuthError (Option Tenant) → Bool
found_in (ok found) = is_some found
found_in (err e) = false

module _ {R : Type 0} where
  abbrev pub is_taken : Text → World R → Bool
  is_taken name w = any (λ (r : TenantRow). text_eq r.name name) w.tenants

  abbrev pub is_known : Uuid → World R → Bool
  is_known u w = any (λ (r : TenantRow). r.id == u) w.tenants

  -- What creating a tenant comes to: a name that was not taken and now is, with all ids and names
  -- distinct; or an error that leaves everything as it was: the name conflict, for a name that is
  -- taken; the refusal of the database, for an id that is; or a ValueError.
  abbrev pub IsCreation : Uuid → Text → World R → Result AuthError TenantOutput × World R → Type 0
  IsCreation fresh name w (ok out, v) =
      (is_taken name w ≡ false)
      × (out.name ≡ name)
      × (is_taken name v ≡ true)
      × AreDistinct v.tenants
  IsCreation fresh name w (err e, v) =
      (v ≡ w)
      × (((e ≡ tenant_name_conflict name) × (is_taken name w ≡ true))
          ⊎ ((e ≡ integrity_error) × (is_taken name w ≡ false) × (is_known fresh w ≡ true))
          ⊎ (e ≡ value_error))
