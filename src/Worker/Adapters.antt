-- ===== src/Worker/Adapters.antt =====
-- ingestion_worker/adapters.py: the download, the embedding request and the index version.
use cbir_engine.Base.{
  Bool, List, Result, String, Text, codes, err, if◌then◌else◌, lift, ok, str_eq, ℕ, ◌++◌, ◌==◌,
  ◌||◌,
}
use cbir_engine.Base.Strings.{show_nat}
use cbir_engine.Vectors.Port.{VectorStore}
use cbir_engine.Worker.Ports.{
  EmbedReply, Outside, S3Reply, WorkerError, World, body, boto_core_error, client_error, embedded,
  permanent, refused, transient, transport_error,
}
use cbir_engine.Worker.Store.{Action}

abbrev pub is_gone_code : String → Bool
is_gone_code c = str_eq c "NoSuchKey" || str_eq c "404" || str_eq c "NoSuchBucket"

unfoldable pub downloaded : S3Reply → Text → Result WorkerError (List ℕ)
downloaded (body bytes) key = ok bytes
downloaded (client_error code) key =
    if is_gone_code code
    then err (permanent (codes "object '" ++ (key ++ codes "' not found in storage")))
    else err (transient (codes "object storage error"))
downloaded boto_core_error key = err (transient (codes "object storage unreachable"))

pub record Embedded (V : Type 0) : Type 0 where
  pub vector : List V
  pub phash : Text
  pub model_version : String

unfoldable pub embedding_of : {V : Type 0} → EmbedReply V → Result WorkerError (Embedded V)
embedding_of transport_error = err (transient (codes "ai-service unreachable"))
embedding_of (embedded v h m) = ok (record { vector = v; phash = h; model_version = m })
embedding_of (refused status text) =
    if status == 422
    then err (permanent (codes "ai-service rejected the image: " ++ text))
    else err (transient (codes "ai-service returned " ++ show_nat status))

module _ {V : Type 0} (s : VectorStore V) (o : Outside V) where
  -- S3ObjectDownloader.download
  unfoldable pub download : Text → Action s o (List ℕ)
  download key = lift (downloaded (o.get_object key) key)

  -- AiServiceEmbedderClient.embed_image
  unfoldable pub embed_image : List ℕ → Action s o (Embedded V)
  embed_image bytes = lift (embedding_of (o.post_embed bytes))

  -- RedisIndexVersionBumper.bump; `false` is a RedisError
  unfoldable pub bump : Text → World s o → Bool × World s o
  bump tenant_id w =
      let (done, versions') =
        o.incr_version (codes "cbir:index-version:" ++ tenant_id) w.versions in
      (done, record w { versions = versions' })
