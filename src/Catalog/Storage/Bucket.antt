-- ===== src/Catalog/Storage/Bucket.antt =====
-- catalog_service/infrastructure/object_storage: the bucket, which the service makes when it starts.
use cbir_engine.Base.{Bool, Exec, Result, err, false, if◌then◌else◌, ok, refl, true, ◌≡◌}
use cbir_engine.Catalog.Ports.{S3Reply, boto_core_error, client_error, served}
use cbir_engine.Catalog.Storage.{is_missing_code}

-- The bucket operations of the S3 client.
pub record BucketClient : Type 1 where
  pub Server : Type 0
  pub head_bucket : Server → S3Reply (Unit {0})
  pub create_bucket : Server → S3Reply (Unit {0}) × Server

pub data BucketError : Type 0 where
  storage_unavailable : BucketError
  boto_error : BucketError

module _ (s : BucketClient) where
  abbrev created : S3Reply (Unit {0}) × s.Server → Result BucketError (Unit {0}) × s.Server
  created (served u, server) = (ok tt, server)
  created (client_error code, server) = (err boto_error, server)
  created (boto_core_error, server) = (err boto_error, server)

  abbrev pub checked : S3Reply (Unit {0}) → Exec s.Server BucketError (Unit {0})
  checked (served u) server = (ok tt, server)
  checked (client_error code) server =
      let make = created (s.create_bucket server) in
      if is_missing_code code then make else (err storage_unavailable, server)
  checked boto_core_error server = (err boto_error, server)

  -- S3ObjectStorage.ensure_bucket
  unfoldable pub ensure_bucket : Exec s.Server BucketError (Unit {0})
  ensure_bucket server = checked (s.head_bucket server) server

  abbrev pub is_served : S3Reply (Unit {0}) → Bool
  is_served (served u) = true
  is_served _ = false

  -- S3ObjectStorage.reachable
  unfoldable pub bucket_reachable : s.Server → Bool
  bucket_reachable server = is_served (s.head_bucket server)

  -- What start-up does about the bucket: a failure is only logged.
  unfoldable pub start_up : s.Server → s.Server
  start_up server = (ensure_bucket server).1

  checked-Served :
      (r : S3Reply (Unit {0})) (server : s.Server)
      → is_served r ≡ true
      → checked r server ≡ (ok tt, server)
  checked-Served (served u) server h = refl
  checked-Served (client_error code) server h = cc
  checked-Served boto_core_error server h = cc

  -- A bucket that is there is left alone.
  ensure_bucket-Reachable :
      (server : s.Server) → bucket_reachable server ≡ true → ensure_bucket server ≡ (ok tt, server)
  unfolding ensure_bucket bucket_reachable
  ensure_bucket-Reachable server h = checked-Served (s.head_bucket server) server h
