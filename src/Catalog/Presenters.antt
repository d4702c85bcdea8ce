-- ===== src/Catalog/Presenters.antt =====
-- catalog_service/interface_adapters/presenters: the responses of catalog-service.
use cbir_engine.Base.{List, Option, String, Text, map, ℕ}
use cbir_engine.Catalog.Ports.{ItemOutput, ItemWithDownloadOutput, RegisteredItemOutput}
use cbir_engine.Kernel.Json.{Dict}

pub record ItemResponse : Type 0 where
  pub id : Text
  pub tenant_id : Text
  pub status : String
  pub content_type : String
  pub metadata : Dict
  pub external_id : Option Text
  pub size_bytes : Option ℕ
  pub duplicate_of_id : Option Text
  pub failure_reason : Option Text
  pub indexed_at : Option ℕ
  pub created_at : ℕ
  pub updated_at : ℕ

pub record PresignedUploadResponse : Type 0 where
  pub url : Text
  pub method : String
  pub headers : List (String × String)
  pub expires_in_seconds : ℕ

pub record RegisteredItemResponse : Type 0 where
  pub item : ItemResponse
  pub upload : PresignedUploadResponse

pub record BatchRegisteredResponse : Type 0 where
  pub items : List RegisteredItemResponse

pub record ItemWithDownloadResponse : Type 0 where
  pub item : ItemResponse
  pub download_url : Option Text

unfoldable pub present_item : ItemOutput → ItemResponse
present_item d = record {
  id = d.id;
  tenant_id = d.tenant_id;
  status = d.status;
  content_type = d.content_type;
  metadata = d.metadata;
  external_id = d.external_id;
  size_bytes = d.size_bytes;
  duplicate_of_id = d.duplicate_of_id;
  failure_reason = d.failure_reason;
  indexed_at = d.indexed_at;
  created_at = d.created_at;
  updated_at = d.updated_at;
}

unfoldable pub present_registered : RegisteredItemOutput → RegisteredItemResponse
present_registered d = record {
  item = present_item d.item;
  upload = record {
    url = d.upload.url;
    method = d.upload.method;
    headers = d.upload.headers;
    expires_in_seconds = d.upload.expires_in_seconds;
  };
}

unfoldable pub present_batch : List RegisteredItemOutput → BatchRegisteredResponse
present_batch ds = record { items = map present_registered ds }

unfoldable pub present_item_with_download : ItemWithDownloadOutput → ItemWithDownloadResponse
present_item_with_download d = record { item = present_item d.item; download_url = d.download_url }
