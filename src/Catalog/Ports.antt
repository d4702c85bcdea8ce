-- ===== src/Catalog/Ports.antt =====
-- catalog_service/application/ports and dto, and what stands outside the repository: the S3 client
-- and the Redis list behind the ingestion queue.
use cbir_engine.Base.{Bool, List, Option, String, Text, ℕ}
use cbir_engine.Catalog.Items.{CatalogItemRow, EmbeddingRefRow, FeedbackRow}
use cbir_engine.Kernel.Json.{Dict, JsonText}

pub record PresignedUpload : Type 0 where
  pub url : Text
  pub method : String
  pub headers : List (String × String)
  pub expires_in_seconds : ℕ

pub record IngestionJob : Type 0 where
  pub tenant_id : Text
  pub item_id : Text
  pub object_key : Text

-- The reply of the S3 client to a request.
pub data S3Reply (A : Type 0) : Type 0 where
  served : A → S3Reply A
  client_error : String → S3Reply A
  boto_core_error : S3Reply A

pub record Outside : Type 1 where
  pub Store : Type 0
  pub Queue : Type 0
  pub head_object : Text → Store → S3Reply ℕ
  pub delete_object : Text → Store → S3Reply (Unit {0}) × Store
  pub presign : String → Text → Option String → ℕ → Text
  pub lpush : JsonText → Queue → Bool × Queue

pub record World (o : Outside) : Type 0 where
  pub items : List CatalogItemRow
  pub embedding_refs : List EmbeddingRefRow
  pub feedback : List FeedbackRow
  pub store : o.Store
  pub queue : o.Queue
  pub now : ℕ

pub record CatalogSettings : Type 0 where
  pub allowed_content_types : List String
  pub upload_url_ttl_seconds : ℕ
  pub download_url_ttl_seconds : ℕ

pub record RegisterItemInput : Type 0 where
  pub tenant_id : Text
  pub content_type : String
  pub metadata : Dict
  pub external_id : Option Text

pub record ItemOutput : Type 0 where
  pub id : Text
  pub tenant_id : Text
  pub status : String
  pub content_type : String
  pub metadata : Dict
  pub external_id : Option Text
  pub size_bytes : Option ℕ
  pub duplicate_of_id : Option Text
  pub failure_reason : Option Text
  pub indexed_at : Option ℕ
  pub created_at : ℕ
  pub updated_at : ℕ

pub record RegisteredItemOutput : Type 0 where
  pub item : ItemOutput
  pub upload : PresignedUpload

pub record ItemWithDownloadOutput : Type 0 where
  pub item : ItemOutput
  pub download_url : Option Text
