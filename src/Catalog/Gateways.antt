-- ===== src/Catalog/Gateways.antt =====
-- catalog_service/interface_adapters/gateways: the queries on `catalog_items` and `feedback`, each
-- of them on one tenant. A write that breaks a primary key, a unique column, the unique pair of
-- tenant and external id or a foreign key raises IntegrityError.
pub mod Isolation
use cbir_engine.Base.{
  Bool, Exec, List, Option, Result, Text, [], any, drop, err, false, find_first, gets,
  if◌then◌else◌, lift, modify, none, not, ok, pos, require, select, some, sort_on, str_eq, take,
  text_eq, true, ℤ, ◌&&◌, ◌++◌, ◌==◌, ◌>>=◌, ◌>>◌, ◌||◌, ◌∷◌,
}
use cbir_engine.Catalog.Items.{
  CatalogError, CatalogItem, CatalogItemRow, EmbeddingRefRow, FeedbackRow, ItemStatus,
  database_error, integrity_error, item_status_value, item_to_row, row_to_item,
}
use cbir_engine.Catalog.Ports.{Outside, World}
use cbir_engine.Kernel.TenantId.{TenantId}
use cbir_engine.Kernel.Uuid.{Uuid}

abbrev pub opt_text_eq : Option Text → Option Text → Bool
opt_text_eq (some s) (some t) = text_eq s t
opt_text_eq _ _ = false

abbrev pub loaded : Result CatalogError CatalogItem → Result CatalogError (Option CatalogItem)
loaded (ok i) = ok (some i)
loaded (err e) = err e

abbrev pub item_of : Option CatalogItemRow → Result CatalogError (Option CatalogItem)
item_of none = ok none
item_of (some r) = loaded (row_to_item r)

abbrev pub items_of : List CatalogItemRow → Result CatalogError (List CatalogItem)
items_of [] = ok []
items_of (r ∷ rs) =
    let rest = items_of rs in
    elim (row_to_item r) [
      | ok i ↦ elim rest [ ok is ↦ ok (i ∷ is) | err e ↦ err e ]
      | err e ↦ err e
    ]

-- where(id == item_id, tenant_id == tenant)
abbrev pub owned_by : TenantId → Uuid → CatalogItemRow → Bool
owned_by t u r = r.id == u && r.tenant_id == t.value

abbrev pub clashes : CatalogItemRow → CatalogItemRow → Bool
clashes n r =
    r.id == n.id
    || text_eq r.object_key n.object_key
    || (r.tenant_id == n.tenant_id && opt_text_eq r.external_id n.external_id)

abbrev pub merge_item : CatalogItemRow → List CatalogItemRow → List CatalogItemRow
merge_item n [] = n ∷ []
merge_item n (r ∷ rs) = let rest = merge_item n rs in if r.id == n.id then n ∷ rs else r ∷ rest

abbrev pub with_status : Option ItemStatus → List CatalogItemRow → List CatalogItemRow
with_status none rows = rows
with_status (some s) rows =
    select (λ (r : CatalogItemRow). str_eq r.status (item_status_value s)) rows

abbrev pub page : {A : Type 0} → ℤ → ℤ → List A → Result CatalogError (List A)
page (pos l) (pos o) xs = ok (take l (drop o xs))
page _ _ xs = err database_error

module _ (o : Outside) where
  unfoldable pub items_add : CatalogItem → Exec (World o) CatalogError (Unit {0})
  items_add i = do
    rows ← gets (λ w. w.items)
    require (not (any (clashes (item_to_row i)) rows)) integrity_error
    modify (λ w. record w { items = w.items ++ (item_to_row i ∷ []) })

  unfoldable pub items_get : TenantId → Uuid → Exec (World o) CatalogError (Option CatalogItem)
  items_get t u w = (item_of (find_first (owned_by t u) w.items), w)

  unfoldable pub items_get_by_external_id :
      TenantId → Text → Exec (World o) CatalogError (Option CatalogItem)
  items_get_by_external_id t e w = (
    item_of (
        find_first
          (λ (r : CatalogItemRow). r.tenant_id == t.value && opt_text_eq r.external_id (some e))
          w.items),
    w,
  )

  unfoldable pub items_list_for_tenant :
      TenantId → ℤ → ℤ → Option ItemStatus → Exec (World o) CatalogError (List CatalogItem)
  items_list_for_tenant t limit offset status = do
    rows ← gets (λ w. w.items)
    let mine = with_status status (select (λ (r : CatalogItemRow). r.tenant_id == t.value) rows)
    rows' ← lift (page limit offset (sort_on (λ (r : CatalogItemRow). r.created_at) mine))
    lift (items_of rows')

  unfoldable pub items_update : CatalogItem → Exec (World o) CatalogError (Unit {0})
  items_update i = modify (λ w. record w { items = merge_item (item_to_row i) w.items })

  -- The row goes, and by ON DELETE CASCADE every row that references it.
  unfoldable pub items_delete : TenantId → Uuid → Exec (World o) CatalogError Bool
  items_delete t u w =
      if any (owned_by t u) w.items
      then (
        ok true,
        record w {
          items = select (λ r. not (owned_by t u r)) w.items;
          embedding_refs = select (λ (r : EmbeddingRefRow). not (r.item_id == u)) w.embedding_refs;
          feedback = select (λ (r : FeedbackRow). not (r.item_id == u)) w.feedback;
        },
      )
      else (ok false, w)

  unfoldable pub feedback_add : Uuid → Uuid → Text → Bool → Exec (World o) CatalogError (Unit {0})
  feedback_add id item_id query_ref relevant = do
    w ← gets (λ w. w)
    require
        (any (λ (r : CatalogItemRow). r.id == item_id) w.items
          && not (any (λ (f : FeedbackRow). f.id == id) w.feedback))
        integrity_error
    modify (λ w. record w {
      feedback =
          w.feedback
          ++ (record {
            id = id;
            item_id = item_id;
            query_ref = query_ref;
            relevant = relevant;
            created_at = w.now;
          }
              ∷ []);
    })
