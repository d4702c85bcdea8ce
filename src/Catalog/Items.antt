-- ===== src/Catalog/Items.antt =====
-- catalog_service/domain, infrastructure/persistence and interface_adapters/mappers: a catalog
-- item, its lifecycle, its row, and the rows that reference it.
use cbir_engine.Base.{
  Bool, Option, Result, String, Text, err, false, if◌then◌else◌, none, ok, refl, some, str_eq, true,
  ℕ, ◌≡◌,
}
use cbir_engine.Kernel.Json.{Dict}
use cbir_engine.Kernel.TenantId.{TenantId}
use cbir_engine.Kernel.Uuid.{Uuid}

pub data CatalogError : Type 0 where
  item_not_found : Text → CatalogError
  duplicate_external_id : Text → CatalogError
  upload_not_confirmable : CatalogError
  unsupported_content_type : String → CatalogError
  object_storage_error : CatalogError
  value_error : CatalogError
  integrity_error : CatalogError
  queue_error : CatalogError
  database_error : CatalogError

pub data ItemStatus : Type 0 where
  pending_upload queued processing indexed duplicate failed : ItemStatus

abbrev pub item_status_value : ItemStatus → String
item_status_value pending_upload = "pending_upload"
item_status_value queued = "queued"
item_status_value processing = "processing"
item_status_value indexed = "indexed"
item_status_value duplicate = "duplicate"
item_status_value failed = "failed"

-- ItemStatus(s)
unfoldable pub parse_item_status : String → Result CatalogError ItemStatus
parse_item_status s =
    if str_eq s "pending_upload"
    then ok pending_upload
    else if str_eq s "queued"
    then ok queued
    else if str_eq s "processing"
    then ok processing
    else if str_eq s "indexed"
    then ok indexed
    else if str_eq s "duplicate"
    then ok duplicate
    else if str_eq s "failed"
    then ok failed
    else err value_error

pub parse_item_status-value : (s : ItemStatus) → parse_item_status (item_status_value s) ≡ ok s
unfolding parse_item_status
parse_item_status-value pending_upload = refl
parse_item_status-value queued = refl
parse_item_status-value processing = refl
parse_item_status-value indexed = refl
parse_item_status-value duplicate = refl
parse_item_status-value failed = refl

-- QUEUEABLE_FROM
unfoldable pub is_queueable : ItemStatus → Bool
is_queueable pending_upload = true
is_queueable failed = true
is_queueable _ = false

pub record CatalogItem : Type 0 where
  pub id : Uuid
  pub tenant_id : TenantId
  pub object_key : Text
  pub content_type : String
  pub status : ItemStatus
  pub metadata : Dict
  pub external_id : Option Text
  pub size_bytes : Option ℕ
  pub phash : Option Text
  pub duplicate_of_id : Option Uuid
  pub failure_reason : Option Text
  pub indexed_at : Option ℕ
  pub created_at : ℕ
  pub updated_at : ℕ

-- CatalogItem.mark_uploaded_and_queued
unfoldable pub mark_uploaded_and_queued : ℕ → ℕ → CatalogItem → CatalogItem
mark_uploaded_and_queued size now i = record i {
  status = queued;
  size_bytes = some size;
  failure_reason = none;
  updated_at = now;
}

unfoldable pub is_downloadable : ItemStatus → Bool
is_downloadable pending_upload = false
is_downloadable _ = true

-- A row of `catalog_items`.
pub record CatalogItemRow : Type 0 where
  pub id : Uuid
  pub tenant_id : Uuid
  pub object_key : Text
  pub content_type : String
  pub status : String
  pub metadata : Dict
  pub external_id : Option Text
  pub size_bytes : Option ℕ
  pub phash : Option Text
  pub duplicate_of_id : Option Uuid
  pub failure_reason : Option Text
  pub indexed_at : Option ℕ
  pub created_at : ℕ
  pub updated_at : ℕ

-- Rows of `embedding_refs` and `feedback`, which die with their item.
pub record EmbeddingRefRow : Type 0 where
  pub id : Uuid
  pub item_id : Uuid
  pub vector_db_collection : Text
  pub vector_id : Text
  pub model_version : String
  pub created_at : ℕ

pub record FeedbackRow : Type 0 where
  pub id : Uuid
  pub item_id : Uuid
  pub query_ref : Text
  pub relevant : Bool
  pub created_at : ℕ

abbrev pub item_to_row : CatalogItem → CatalogItemRow
item_to_row i = record {
  id = i.id;
  tenant_id = i.tenant_id.value;
  object_key = i.object_key;
  content_type = i.content_type;
  status = item_status_value i.status;
  metadata = i.metadata;
  external_id = i.external_id;
  size_bytes = i.size_bytes;
  phash = i.phash;
  duplicate_of_id = i.duplicate_of_id;
  failure_reason = i.failure_reason;
  indexed_at = i.indexed_at;
  created_at = i.created_at;
  updated_at = i.updated_at;
}

abbrev pub build_item :
    CatalogItemRow → Result CatalogError ItemStatus → Result CatalogError CatalogItem
build_item r (err e) = err e
build_item r (ok s) = ok (record {
  id = r.id;
  tenant_id = record { value = r.tenant_id };
  object_key = r.object_key;
  content_type = r.content_type;
  status = s;
  metadata = r.metadata;
  external_id = r.external_id;
  size_bytes = r.size_bytes;
  phash = r.phash;
  duplicate_of_id = r.duplicate_of_id;
  failure_reason = r.failure_reason;
  indexed_at = r.indexed_at;
  created_at = r.created_at;
  updated_at = r.updated_at;
})

unfoldable pub row_to_item : CatalogItemRow → Result CatalogError CatalogItem
row_to_item r = build_item r (parse_item_status r.status)

-- A stored item is read back as it was.
pub row_to_item-item_to_row : (i : CatalogItem) → row_to_item (item_to_row i) ≡ ok i
unfolding row_to_item
row_to_item-item_to_row i = rw (parse_item_status-value i.status)
