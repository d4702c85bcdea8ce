-- ===== src/Catalog/UseCases.antt =====
-- catalog_service/application/use_cases/items.py and feedback.py
pub mod Batches
pub mod Deletion
pub mod Registration
pub mod Confirmation
use cbir_engine.Base.{
  Bool, Exec, List, Option, Result, String, Text, [], any, codes, err, gets, if◌then◌else◌, is_some,
  lift, map, none, not, ok, pure, require, some, str_eq, text_eq, ℕ, ℤ, ◌++◌, ◌>>=◌, ◌>>◌, ◌∷◌,
}
use cbir_engine.Catalog.Gateways.{
  feedback_add, items_add, items_delete, items_get, items_get_by_external_id, items_list_for_tenant,
  items_update,
}
use cbir_engine.Catalog.Items.{
  CatalogError, CatalogItem, ItemStatus, duplicate_external_id, is_downloadable, item_not_found,
  item_status_value, mark_uploaded_and_queued, parse_item_status, pending_upload,
  unsupported_content_type, upload_not_confirmable, value_error,
}
use cbir_engine.Catalog.Ports.{
  CatalogSettings, ItemOutput, ItemWithDownloadOutput, Outside, RegisterItemInput,
  RegisteredItemOutput, World,
}
use cbir_engine.Catalog.Storage.{
  delete_stored, enqueue, presign_download, presign_upload, stat_object,
}
use cbir_engine.Kernel.TenantId.{TenantId, parse_tenant, tenant_str}
use cbir_engine.Kernel.Uuid.{Uuid, uuid_parse, uuid_str}

abbrev pub present : CatalogItem → ItemOutput
present i = record {
  id = uuid_str i.id;
  tenant_id = tenant_str i.tenant_id;
  status = item_status_value i.status;
  content_type = i.content_type;
  metadata = i.metadata;
  external_id = i.external_id;
  size_bytes = i.size_bytes;
  duplicate_of_id = elim i.duplicate_of_id [ none ↦ none | some u ↦ some (uuid_str u) ];
  failure_reason = i.failure_reason;
  indexed_at = i.indexed_at;
  created_at = i.created_at;
  updated_at = i.updated_at;
}

unfoldable pub object_key_for : TenantId → Uuid → Text
object_key_for t u = codes "tenants/" ++ (tenant_str t ++ (codes "/items/" ++ uuid_str u))

-- TenantId.parse: InvalidTenantIdError is a ValueError.
abbrev pub tenant_id_of : Text → Result CatalogError TenantId
tenant_id_of raw = elim (parse_tenant raw) [ some t ↦ ok t | none ↦ err value_error ]

abbrev pub item_uuid : Text → Result CatalogError Uuid
item_uuid raw = elim (uuid_parse raw) [ some u ↦ ok u | none ↦ err (item_not_found raw) ]

abbrev pub found_item : Text → Option CatalogItem → Result CatalogError CatalogItem
found_item raw none = err (item_not_found raw)
found_item raw (some i) = ok i

abbrev pub confirmed_size : Option ℕ → Result CatalogError ℕ
confirmed_size none = err upload_not_confirmable
confirmed_size (some n) = ok n

abbrev pub parse_filter : Option String → Result CatalogError (Option ItemStatus)
parse_filter none = ok none
parse_filter (some s) = elim (parse_item_status s) [ ok v ↦ ok (some v) | err e ↦ err e ]

abbrev pub seen_member : Text → List Text → Bool
seen_member e = any (λ t. text_eq t e)

module _ (o : Outside) where
  -- _get_item_or_raise
  unfoldable pub get_item_or_raise : Text → Text → Exec (World o) CatalogError CatalogItem
  get_item_or_raise tenant_id raw = do
    u ← lift (item_uuid raw)
    t ← lift (tenant_id_of tenant_id)
    found ← items_get o t u
    lift (found_item raw found)

  -- The check of `external_id`; returns the ids seen, this one included.
  abbrev pub claim_external_id :
      TenantId → Option Text → List Text → Exec (World o) CatalogError (List Text)
  claim_external_id t none seen = pure seen
  claim_external_id t (some e) seen = do
    require (not (seen_member e seen)) (duplicate_external_id e)
    other ← items_get_by_external_id o t e
    require (not (is_some other)) (duplicate_external_id e)
    pure (e ∷ seen)

  -- RegisterCatalogItem.register_one; `fresh` is the value of uuid4
  unfoldable pub register_one :
      CatalogSettings
      → Uuid
      → RegisterItemInput
      → List Text
      → Exec (World o) CatalogError (RegisteredItemOutput × List Text)
  register_one settings fresh d seen = do
    require (any (λ c. str_eq c d.content_type) settings.allowed_content_types)
        (unsupported_content_type d.content_type)
    t ← lift (tenant_id_of d.tenant_id)
    seen' ← claim_external_id t d.external_id seen
    now ← gets (λ w. w.now)
    let item : CatalogItem = record {
      id = fresh;
      tenant_id = t;
      object_key = object_key_for t fresh;
      content_type = d.content_type;
      status = pending_upload;
      metadata = d.metadata;
      external_id = d.external_id;
      size_bytes = none;
      phash = none;
      duplicate_of_id = none;
      failure_reason = none;
      indexed_at = none;
      created_at = now;
      updated_at = now;
    }
    items_add o item
    pure (
      record {
        item = present item;
        upload = presign_upload o item.object_key item.content_type settings.upload_url_ttl_seconds;
      },
      seen',
    )

  -- RegisterCatalogItem.execute
  unfoldable pub register_item :
      CatalogSettings → Uuid → RegisterItemInput → Exec (World o) CatalogError RegisteredItemOutput
  register_item settings fresh d = do (output, seen) ← register_one settings fresh d []; pure output

  -- BatchRegisterCatalogItems.execute, each item with the value of its uuid4
  unfoldable pub batch_register :
      CatalogSettings
      → List (Uuid × RegisterItemInput)
      → List Text
      → Exec (World o) CatalogError (List RegisteredItemOutput)
  batch_register settings [] seen = pure []
  batch_register settings ((fresh, d) ∷ rest) seen = do
    (output, seen') ← register_one settings fresh d seen
    outputs ← batch_register settings rest seen'
    pure (output ∷ outputs)

  -- ConfirmCatalogItemUpload.execute
  unfoldable pub confirm_upload : Text → Text → Exec (World o) CatalogError ItemOutput
  confirm_upload tenant_id raw = do
    item ← get_item_or_raise tenant_id raw
    stat ← stat_object o item.object_key
    size ← lift (confirmed_size stat)
    now ← gets (λ w. w.now)
    let item' = mark_uploaded_and_queued size now item
    items_update o item'
    enqueue o (record {
      tenant_id = tenant_str item'.tenant_id;
      item_id = uuid_str item'.id;
      object_key = item'.object_key;
    })
    pure (present item')

  -- GetCatalogItem.execute
  unfoldable pub get_item :
      CatalogSettings → Text → Text → Exec (World o) CatalogError ItemWithDownloadOutput
  get_item settings tenant_id raw = do
    item ← get_item_or_raise tenant_id raw
    pure (record {
      item = present item;
      download_url =
          if is_downloadable item.status
          then some (presign_download o item.object_key settings.download_url_ttl_seconds)
          else none;
    })

  -- ListCatalogItems.execute
  unfoldable pub list_items :
      Text → ℤ → ℤ → Option String → Exec (World o) CatalogError (List ItemOutput)
  list_items tenant_id limit offset status = do
    t ← lift (tenant_id_of tenant_id)
    wanted ← lift (parse_filter status)
    items ← items_list_for_tenant o t limit offset wanted
    pure (map present items)

  -- DeleteCatalogItem.execute
  unfoldable pub delete_item : Text → Text → Exec (World o) CatalogError (Unit {0})
  delete_item tenant_id raw = do
    item ← get_item_or_raise tenant_id raw
    delete_stored o item.object_key
    t ← lift (tenant_id_of tenant_id)
    items_delete o t item.id
    pure tt

  -- SubmitFeedback.execute; `fresh` is the value of uuid4
  unfoldable pub submit_feedback :
      Uuid → Text → Text → Text → Bool → Exec (World o) CatalogError Text
  submit_feedback fresh tenant_id raw query_ref relevant = do
    u ← lift (item_uuid raw)
    t ← lift (tenant_id_of tenant_id)
    found ← items_get o t u
    require (is_some found) (item_not_found raw)
    feedback_add o fresh u query_ref relevant
    pure (uuid_str fresh)
