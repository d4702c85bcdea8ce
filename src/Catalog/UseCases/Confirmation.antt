-- ===== src/Catalog/UseCases/Confirmation.antt =====
-- ConfirmCatalogItemUpload: the item that is queued, and the job that goes with it.
use cbir_engine.Base.{
  ==_refl, Bool-cases, List, Text, [], ap, find_first, inl, inr, ok, refl, some, true, ℕ, ◌==◌, ◌∙◌,
  ◌∷◌, ◌≡◌,
}
use cbir_engine.Base.Effects.{followed}
use cbir_engine.Catalog.Gateways.{item_of, items_get, items_update, loaded, merge_item, owned_by}
use cbir_engine.Catalog.Items.{
  CatalogItem, CatalogItemRow, is_queueable, item_to_row, mark_uploaded_and_queued, queued,
  row_to_item-item_to_row,
}
use cbir_engine.Catalog.Ports.{IngestionJob, ItemOutput, Outside, World, served}
use cbir_engine.Catalog.Storage.{enqueue, job_payload, stat_object}
use cbir_engine.Catalog.UseCases.{confirm_upload, get_item_or_raise, present}
use cbir_engine.Kernel.TenantId.{TenantId, parse_tenant, tenant_str}
use cbir_engine.Kernel.Uuid.{Uuid, uuid_parse, uuid_str}

module _ (o : Outside) where
  items_get-row :
      (t : TenantId) (u : Uuid) (i : CatalogItem) (w : World o)
      → find_first (owned_by t u) w.items ≡ some (item_to_row i)
      → items_get o t u w ≡ (ok (some i), w)
  unfolding items_get
  items_get-row t u i w h =
      ap (λ r. (item_of r, w)) h ∙ ap (λ r. (loaded r, w)) (row_to_item-item_to_row i)

  pub get_item_or_raise-row :
      (t : TenantId) (tenant_id raw : Text) (i : CatalogItem) (w : World o)
      → uuid_parse raw ≡ some i.id
      → parse_tenant tenant_id ≡ some t
      → find_first (owned_by t i.id) w.items ≡ some (item_to_row i)
      → get_item_or_raise o tenant_id raw w ≡ (ok i, w)
  unfolding get_item_or_raise
  get_item_or_raise-row t tenant_id raw i w named known row =
      rw (named, followed) (rw (known, followed) (rw (items_get-row t i.id i w row, followed) refl))

  -- The job that a confirmation puts on the queue.
  abbrev pub job_of_item : CatalogItem → IngestionJob
  job_of_item i = record {
    tenant_id = tenant_str i.tenant_id;
    item_id = uuid_str i.id;
    object_key = i.object_key;
  }

  abbrev pub with_confirmed : ℕ → CatalogItem → World o → World o
  with_confirmed size i w = record w {
    items = merge_item (item_to_row (mark_uploaded_and_queued size w.now i)) w.items;
    queue = (o.lpush (job_payload (job_of_item i)) w.queue).1;
  }

  confirm_upload-Stores :
      (t : TenantId) (tenant_id raw : Text) (i : CatalogItem) (size : ℕ) (w : World o)
      → uuid_parse raw ≡ some i.id
      → parse_tenant tenant_id ≡ some t
      → find_first (owned_by t i.id) w.items ≡ some (item_to_row i)
      → o.head_object i.object_key w.store ≡ served size
      → (o.lpush (job_payload (job_of_item i)) w.queue).0 ≡ true
      → confirm_upload o tenant_id raw w
        ≡ (ok (present (mark_uploaded_and_queued size w.now i)), with_confirmed size i w)
  unfolding confirm_upload stat_object items_update enqueue mark_uploaded_and_queued
  confirm_upload-Stores t tenant_id raw i size w named known row uploaded pushed =
      rw (get_item_or_raise-row t tenant_id raw i w named known row, followed)
        (rw (uploaded, followed) (rw (pushed, followed) refl))

  find_first-merge_item :
      (t : TenantId) (n : CatalogItemRow) (rows : List CatalogItemRow)
      → n.tenant_id ≡ t.value
      → find_first (owned_by t n.id) (merge_item n rows) ≡ some n
  find_first-merge_item t n [] h = rw h (rw (==_refl n.id) (rw (==_refl t.value) refl))
  find_first-merge_item t n (r ∷ rows) h = elim (Bool-cases (r.id == n.id)) [
    | inl e ↦ rw e (rw h (rw (==_refl n.id) (rw (==_refl t.value) refl)))
    | inr e ↦ rw e (rw e (find_first-merge_item t n rows h))
  ]

  -- A confirmation of an upload that object storage has, for an item that waits for its upload or that
  -- failed, returns the item as queued, with its size;
  -- the queue takes one job for the item; and the tenant reads the item as it was returned.
  pub confirm_upload-Queues :
      (t : TenantId) (tenant_id raw : Text) (i : CatalogItem) (size : ℕ) (w : World o)
      → is_queueable i.status ≡ true
      → uuid_parse raw ≡ some i.id
      → parse_tenant tenant_id ≡ some t
      → i.tenant_id.value ≡ t.value
      → find_first (owned_by t i.id) w.items ≡ some (item_to_row i)
      → o.head_object i.object_key w.store ≡ served size
      → (o.lpush (job_payload (job_of_item i)) w.queue).0 ≡ true
      → (out : ItemOutput) × (v : World o) × (i' : CatalogItem) × (confirm_upload o tenant_id raw w
          ≡ (ok out, v))
        × (out ≡ present i')
        × (i'.status ≡ queued)
        × (i'.size_bytes ≡ some size)
        × (v.queue ≡ (o.lpush (job_payload (job_of_item i)) w.queue).1)
        × (get_item_or_raise o tenant_id raw v ≡ (ok i', v))
  unfolding mark_uploaded_and_queued
  confirm_upload-Queues t tenant_id raw i size w from named known own row uploaded pushed =
      let i' = mark_uploaded_and_queued size w.now i in
      (
        present i',
        with_confirmed size i w,
        i',
        confirm_upload-Stores t tenant_id raw i size w named known row uploaded pushed,
        refl,
        refl,
        refl,
        refl,
        get_item_or_raise-row t tenant_id raw i' (with_confirmed size i w) named known
            (find_first-merge_item t (item_to_row i') w.items own),
      )
