-- ===== src/Catalog/UseCases/Registration.antt =====
-- RegisterCatalogItem, followed by a read of the tenant.
use cbir_engine.Base.{
  ==_refl, List, Text, [], any, arith, false, find_first, none, ok, refl, some, str_eq, true, ℕ,
  ◌++◌, ◌<◌, ◌∷◌, ◌≡◌,
}
use cbir_engine.Base.Effects.{followed}
use cbir_engine.Catalog.Gateways.{clashes, items_add, owned_by}
use cbir_engine.Catalog.Items.{CatalogItem, CatalogItemRow, item_to_row, pending_upload}
use cbir_engine.Catalog.Ports.{
  CatalogSettings, Outside, RegisterItemInput, RegisteredItemOutput, World,
}
use cbir_engine.Catalog.Storage.{presign_upload}
use cbir_engine.Catalog.UseCases.{
  claim_external_id, get_item_or_raise, object_key_for, present, register_item, register_one,
}
use cbir_engine.Catalog.UseCases.Confirmation.{get_item_or_raise-row}
use cbir_engine.Kernel.TenantId.{TenantId, parse_tenant}
use cbir_engine.Kernel.Uuid.{Uuid, uuid_limit, uuid_str}
use cbir_engine.Kernel.Uuid.RoundTrip.{uuid_parse-uuid_str}

module _ (o : Outside) where
  -- The item that a registration stores.
  abbrev pub registered : Uuid → TenantId → RegisterItemInput → ℕ → CatalogItem
  registered fresh t d now = record {
    id = fresh;
    tenant_id = t;
    object_key = object_key_for t fresh;
    content_type = d.content_type;
    status = pending_upload;
    metadata = d.metadata;
    external_id = d.external_id;
    size_bytes = none;
    phash = none;
    duplicate_of_id = none;
    failure_reason = none;
    indexed_at = none;
    created_at = now;
    updated_at = now;
  }

  find_first-append :
      (t : TenantId) (n : CatalogItemRow) (rows : List CatalogItemRow)
      → n.tenant_id ≡ t.value
      → any (clashes n) rows ≡ false
      → find_first (owned_by t n.id) (rows ++ (n ∷ [])) ≡ some n
  find_first-append t n [] h k = rw h (rw (==_refl n.id) (rw (==_refl t.value) refl))
  find_first-append t n (r ∷ rows) h k = ground (arith, find_first-append t n rows h)

  abbrev pub with_registered : CatalogItem → World o → World o
  with_registered i w = record w { items = w.items ++ (item_to_row i ∷ []) }

  register_item-Stores :
      (settings : CatalogSettings) (fresh : Uuid) (d : RegisterItemInput) (t : TenantId)
      (seen : List Text) (w : World o)
      → any (λ c. str_eq c d.content_type) settings.allowed_content_types ≡ true
      → parse_tenant d.tenant_id ≡ some t
      → claim_external_id o t d.external_id [] w ≡ (ok seen, w)
      → any (clashes (item_to_row (registered fresh t d w.now))) w.items ≡ false
      → register_item o settings fresh d w ≡ (
        ok (record {
          item = present (registered fresh t d w.now);
          upload =
              presign_upload o
                (object_key_for t fresh)
                d.content_type
                settings.upload_url_ttl_seconds;
        }),
        with_registered (registered fresh t d w.now) w,
      )
  unfolding register_item register_one items_add
  register_item-Stores settings fresh d t seen w allowed known claimed apart =
      rw (allowed, followed)
        (rw (known, followed) (rw (claimed, followed) (rw (apart, followed) refl)))

  -- A registration with an allowed content type, a known tenant, an external id that is absent or
  -- free, and an id and object key that are new returns the item as awaiting its upload, and the
  -- tenant then reads that item under the id that was returned.
  pub register_item-Readable :
      (settings : CatalogSettings) (fresh : Uuid) (d : RegisterItemInput) (t : TenantId)
      (seen : List Text) (w : World o)
      → fresh < uuid_limit
      → any (λ c. str_eq c d.content_type) settings.allowed_content_types ≡ true
      → parse_tenant d.tenant_id ≡ some t
      → claim_external_id o t d.external_id [] w ≡ (ok seen, w)
      → any (clashes (item_to_row (registered fresh t d w.now))) w.items ≡ false
      → (out : RegisteredItemOutput) × (v : World o) × (i : CatalogItem) × (register_item o settings
            fresh d w
          ≡ (ok out, v))
        × (out.item ≡ present i)
        × (i.status ≡ pending_upload)
        × (get_item_or_raise o d.tenant_id out.item.id v ≡ (ok i, v))
  register_item-Readable settings fresh d t seen w small allowed known claimed apart =
      let i = registered fresh t d w.now in
      (
        record {
          item = present i;
          upload =
              presign_upload o (object_key_for t fresh) d.content_type
                settings.upload_url_ttl_seconds;
        },
        with_registered i w,
        i,
        register_item-Stores settings fresh d t seen w allowed known claimed apart,
        refl,
        refl,
        get_item_or_raise-row o t d.tenant_id (uuid_str fresh) i (with_registered i w)
            (uuid_parse-uuid_str fresh small) known
            (find_first-append t (item_to_row i) w.items refl apart),
      )
