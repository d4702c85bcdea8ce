-- ===== src/Catalog/Gateways/Isolation.antt =====
-- SqlAlchemyCatalogItemRepository.get and delete, between tenants.
use cbir_engine.Base.{
  Bool, Bool-cases, List, Option, Result, [], any, ap, arith, err, false, find_first, inl, inr,
  none, not, ok, refl, select, some, sym, true, ◌==◌, ◌∙◌, ◌∷◌, ◌≡◌,
}
use cbir_engine.Catalog.Gateways.{item_of, items_delete, items_get, loaded, owned_by}
use cbir_engine.Catalog.Items.{
  CatalogError, CatalogItem, CatalogItemRow, ItemStatus, build_item, parse_item_status, row_to_item,
}
use cbir_engine.Catalog.Ports.{Outside, World}
use cbir_engine.Kernel.TenantId.{TenantId}
use cbir_engine.Kernel.Uuid.{Uuid}

find_first-Passes :
    {A : Type 0} (p : A → Bool) (rows : List A) (r : A) → find_first p rows ≡ some r → p r ≡ true
find_first-Passes p [] r h = cc
find_first-Passes p (x ∷ rows) r h = ground (arith, find_first-Passes p rows r)

abbrev id_in : Uuid → Result CatalogError (Option CatalogItem) → Uuid
id_in d (ok (some i)) = i.id
id_in d _ = d

abbrev tenant_in : Uuid → Result CatalogError (Option CatalogItem) → Uuid
tenant_in d (ok (some i)) = i.tenant_id.value
tenant_in d _ = d

loaded-Fields :
    (r : CatalogItemRow) (p : Result CatalogError ItemStatus) (i : CatalogItem)
    → loaded (build_item r p) ≡ ok (some i)
    → (i.id ≡ r.id) × (i.tenant_id.value ≡ r.tenant_id)
loaded-Fields r (ok s) i h = (sym (ap (id_in 0) h), sym (ap (tenant_in 0) h))
loaded-Fields r (err e) i h = cc

owned_by-Fields :
    (t : TenantId) (u : Uuid) (r : CatalogItemRow)
    → owned_by t u r ≡ true
    → (r.id ≡ u) × (r.tenant_id ≡ t.value)
owned_by-Fields t u r h = ground arith

module _ (o : Outside) where
  -- An item that a lookup returns has the id that was asked for and belongs to the tenant.
  items_get-IsOwned :
      (t : TenantId) (u : Uuid) (w : World o) (i : CatalogItem)
      → (items_get o t u w).0 ≡ ok (some i)
      → (i.id ≡ u) × (i.tenant_id.value ≡ t.value)
  unfolding items_get row_to_item
  items_get-IsOwned t u w i h = by_row (find_first (owned_by t u) w.items) refl h
    where
      by_row :
          (found : Option CatalogItemRow)
          → find_first (owned_by t u) w.items ≡ found
          → item_of found ≡ ok (some i)
          → (i.id ≡ u) × (i.tenant_id.value ≡ t.value)
      by_row none n e = cc
      by_row (some r) n e =
          let f = loaded-Fields r (parse_item_status r.status) i e in
          let g = owned_by-Fields t u r (find_first-Passes (owned_by t u) w.items r n) in
          (f.0 ∙ g.0, f.1 ∙ g.1)

  abbrev rows_of : TenantId → List CatalogItemRow → List CatalogItemRow
  rows_of t = select (λ (r : CatalogItemRow). r.tenant_id == t.value)

  select_others :
      (t t' : TenantId) (u : Uuid) (rows : List CatalogItemRow)
      → (t.value == t'.value) ≡ false
      → rows_of t' (select (λ r. not (owned_by t u r)) rows) ≡ rows_of t' rows
  select_others t t' u [] h = refl
  select_others t t' u (r ∷ rows) h = ground (arith, select_others t t' u rows h)

  -- A delete of one tenant leaves the rows of every other tenant as they are, whatever the id.
  items_delete-KeepsOthers :
      (t t' : TenantId) (u : Uuid) (w : World o)
      → (t.value == t'.value) ≡ false
      → rows_of t' (items_delete o t u w).1.items ≡ rows_of t' w.items
  unfolding items_delete
  items_delete-KeepsOthers t t' u w h = elim (Bool-cases (any (owned_by t u) w.items)) [
    | inl e ↦ rw e (select_others t t' u w.items h)
    | inr e ↦ rw e refl
  ]
