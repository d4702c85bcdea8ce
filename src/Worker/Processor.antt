-- ===== src/Worker/Processor.antt =====
-- ingestion_worker/processor.py: one job, from the download to the index.
pub mod Redelivery
pub mod Tenancy
pub mod Steps
pub mod Queues
use cbir_engine.Base.{
  Bool, List, Option, String, Text, [], codes, err, false, if◌then◌else◌, is_blank, length, lift,
  none, ok, pure, require, some, str_eq, true, ℕ, ◌>>=◌, ◌>>◌, ◌∷◌,
}
use cbir_engine.Kernel.Json.{Dict, Json, arr, null, obj, str}
use cbir_engine.Vectors.Port.{VectorRecord, VectorStore, collection_name}
use cbir_engine.Worker.Adapters.{Embedded, bump, download, embed_image}
use cbir_engine.Worker.Dedup.{find_duplicate}
use cbir_engine.Worker.Ports.{ItemView, Outside, Settings, WorkerError, other_error, permanent}
use cbir_engine.Worker.Store.{
  Action, get_item, list_indexed_phashes, mark_duplicate, mark_failed, mark_indexed,
  mark_processing,
}

pub data Outcome : Type 0 where
  was_indexed was_skipped : Outcome
  was_duplicate : Text → Outcome

-- The scalar values of the metadata; a nested list, object or null is left out.
abbrev pub is_scalar : Json → Bool
is_scalar null = false
is_scalar (arr xs) = false
is_scalar (obj fs) = false
is_scalar _ = true

-- payload[key] = value
abbrev pub put_value : String → Json → Dict → Dict
put_value k v [] = (k, v) ∷ []
put_value k v ((j, x) ∷ d) =
    let rest = put_value k v d in if str_eq j k then (j, v) ∷ d else (j, x) ∷ rest

abbrev pub put_scalars : Dict → Dict → Dict
put_scalars [] d = d
put_scalars ((k, v) ∷ m) d = put_scalars m (if is_scalar v then put_value k v d else d)

abbrev with_external_id : Option Text → Dict → Dict
with_external_id none d = d
with_external_id (some e) d = if is_blank e then d else put_value "external_id" (str e) d

unfoldable pub search_payload : ItemView → Dict
search_payload i =
    put_scalars i.metadata (with_external_id i.external_id (("item_id", str i.id) ∷ []))

abbrev pub is_indexed : ItemView → Bool
is_indexed i = str_eq i.status "indexed"

abbrev pub has_vector : {V : Type 0} → List V → Bool
has_vector [] = false
has_vector (x ∷ xs) = true

abbrev pub bad_hash : WorkerError
bad_hash = other_error (codes "invalid literal for int() with base 16")

module _ {V : Type 0} (s : VectorStore V) (o : Outside V) (settings : Settings) where
  abbrev pub store_error : WorkerError
  store_error = other_error (codes "vector store error")

  abbrev pub vectors_ensure : Text → ℕ → Action s o (Unit {0})
  vectors_ensure tenant dim w =
      let (done, vectors') = s.ensure_collection tenant dim w.vectors in
      (if done then ok tt else err store_error, record w { vectors = vectors' })

  abbrev pub vectors_upsert : Text → VectorRecord V → Action s o (Unit {0})
  vectors_upsert tenant r w =
      let (done, vectors') = s.upsert tenant (r ∷ []) w.vectors in
      (if done then ok tt else err store_error, record w { vectors = vectors' })

  -- The bump is best-effort: its failure is only logged.
  abbrev pub bump_quietly : Text → Action s o (Unit {0})
  bump_quietly tenant w = (ok tt, (bump s o tenant w).1)

  -- The write to the index, and the item's flip to `indexed`.
  unfoldable pub index_item : Text → ItemView → Embedded V → Action s o Outcome
  index_item raw item e = do
    vectors_ensure item.tenant_id (length e.vector)
    vectors_upsert item.tenant_id
        (record { id = raw; vector = e.vector; payload = search_payload item })
    mark_indexed s o raw e.phash (collection_name item.tenant_id) raw e.model_version
    bump_quietly item.tenant_id
    pure was_indexed

  abbrev pub conclude : Text → ItemView → Embedded V → Option Text → Action s o Outcome
  conclude raw item e none = index_item raw item e
  conclude raw item e (some d) = do mark_duplicate s o raw e.phash d; pure (was_duplicate d)

  -- The pipeline of an item that is not indexed yet.
  unfoldable pub ingest : Text → ItemView → Action s o Outcome
  ingest raw item = do
    mark_processing s o raw
    bytes ← download s o item.object_key
    e ← embed_image s o bytes
    require (has_vector e.vector) (permanent (codes "embedding provider returned an empty vector"))
    existing ← list_indexed_phashes s o item.tenant_id
    found ← lift (elim (find_duplicate e.phash existing settings.dedup_hamming_threshold) [
      | none ↦ err bad_hash
      | some d ↦ ok d
    ])
    conclude raw item e found

  abbrev pub process_found : Text → Option ItemView → Action s o Outcome
  process_found raw none = pure was_skipped
  process_found raw (some item) = if is_indexed item then pure was_skipped else ingest raw item

  -- IngestionProcessor.process
  unfoldable pub process : Text → Action s o Outcome
  process raw = do found ← get_item s o raw; process_found raw found

  -- IngestionProcessor.fail
  unfoldable pub fail : Text → Text → Action s o (Unit {0})
  fail raw reason = mark_failed s o raw reason
