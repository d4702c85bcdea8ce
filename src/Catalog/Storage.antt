-- ===== src/Catalog/Storage.antt =====
-- catalog_service/infrastructure/object_storage and messaging: the S3 adapter and the producer of
-- the ingestion queue.
pub mod Bucket
use cbir_engine.Base.{
  Bool, Exec, Option, Result, String, Text, [], err, if◌then◌else◌, none, ok, pos, some, str_eq, ℕ,
  ◌||◌, ◌∷◌,
}
use cbir_engine.Catalog.Items.{CatalogError, object_storage_error, queue_error}
use cbir_engine.Catalog.Ports.{
  IngestionJob, Outside, PresignedUpload, S3Reply, World, boto_core_error, client_error, served,
}
use cbir_engine.Kernel.Json.{JsonText, dumps, end, field, int, obj, str}

abbrev pub is_missing_code : String → Bool
is_missing_code c =
    str_eq c "404" || str_eq c "NoSuchKey" || str_eq c "NotFound" || str_eq c "NoSuchBucket"

abbrev pub stat_of : S3Reply ℕ → Result CatalogError (Option ℕ)
stat_of (served size) = ok (some size)
stat_of (client_error code) = if is_missing_code code then ok none else err object_storage_error
stat_of boto_core_error = err object_storage_error

abbrev pub deletion_of : S3Reply (Unit {0}) → Result CatalogError (Unit {0})
deletion_of (served u) = ok tt
deletion_of (client_error code) = err object_storage_error
deletion_of boto_core_error = err object_storage_error

-- The payload of a new job: `attempts` starts at 0.
unfoldable pub job_payload : IngestionJob → JsonText
job_payload j = dumps (
    obj (
      field "tenant_id" (str j.tenant_id) (
        field "item_id" (str j.item_id)
          (field "object_key" (str j.object_key) (field "attempts" (int (pos 0)) end)))))

module _ (o : Outside) where
  -- S3ObjectStorage.presign_upload
  unfoldable pub presign_upload : Text → String → ℕ → PresignedUpload
  presign_upload object_key content_type ttl = record {
    url = o.presign "put_object" object_key (some content_type) ttl;
    method = "PUT";
    headers = ("Content-Type", content_type) ∷ [];
    expires_in_seconds = ttl;
  }

  -- S3ObjectStorage.presign_download
  unfoldable pub presign_download : Text → ℕ → Text
  presign_download object_key ttl = o.presign "get_object" object_key none ttl

  -- S3ObjectStorage.stat_object
  unfoldable pub stat_object : Text → Exec (World o) CatalogError (Option ℕ)
  stat_object object_key w = (stat_of (o.head_object object_key w.store), w)

  -- S3ObjectStorage.delete_object
  unfoldable pub delete_stored : Text → Exec (World o) CatalogError (Unit {0})
  delete_stored object_key w =
      let (reply, store') = o.delete_object object_key w.store in
      (deletion_of reply, record w { store = store' })

  -- RedisIngestionQueue.enqueue
  unfoldable pub enqueue : IngestionJob → Exec (World o) CatalogError (Unit {0})
  enqueue job w =
      let (pushed, queue') = o.lpush (job_payload job) w.queue in
      (if pushed then ok tt else err queue_error, record w { queue = queue' })
