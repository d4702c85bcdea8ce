-- ===== src/Worker/Ports.antt =====
-- ingestion_worker/ports.py and config.py, and what stands outside the repository: object storage,
-- the HTTP client, Redis, uuid4, and `int` of a text. The vector store is a port of the program.
use cbir_engine.Base.{Bool, List, Option, String, Text, ℕ, ℤ}
use cbir_engine.Catalog.Items.{CatalogItemRow, EmbeddingRefRow}
use cbir_engine.Kernel.Json.{Dict, JsonText}
use cbir_engine.Kernel.Uuid.{Uuid}
use cbir_engine.Vectors.Port.{VectorStore}

pub data WorkerError : Type 0 where
  transient : Text → WorkerError
  permanent : Text → WorkerError
  other_error : Text → WorkerError

-- `str(exc)`
abbrev pub message : WorkerError → Text
message (transient m) = m
message (permanent m) = m
message (other_error m) = m

pub record ItemView : Type 0 where
  pub id : Text
  pub tenant_id : Text
  pub object_key : Text
  pub content_type : String
  pub metadata : Dict
  pub external_id : Option Text
  pub status : String

pub data S3Reply : Type 0 where
  body : List ℕ → S3Reply
  client_error : String → S3Reply
  boto_core_error : S3Reply

-- The answer of ai-service to an embed request: a transport error, or a status with the first
-- result's vector and hash and the model version, or the text of the response.
pub data EmbedReply (V : Type 0) : Type 0 where
  transport_error : EmbedReply V
  embedded : List V → Text → String → EmbedReply V
  refused : ℕ → Text → EmbedReply V

pub record Outside (V : Type 0) : Type 1 where
  pub Versions : Type 0
  pub get_object : Text → S3Reply
  pub post_embed : List ℕ → EmbedReply V
  pub incr_version : Text → Versions → Bool × Versions
  pub int_of_text : Text → Option ℤ
  pub int_of_float : Text → Option ℤ

pub record Settings : Type 0 where
  pub max_attempts : ℤ
  pub dedup_hamming_threshold : ℕ

-- The tables, the vector store, the index versions, the two queues (newest first), the seconds of
-- back-off slept so far in units of `retry_backoff_seconds`, the clock and the next uuid4.
pub record World {V : Type 0} (s : VectorStore V) (o : Outside V) : Type 0 where
  pub items : List CatalogItemRow
  pub embedding_refs : List EmbeddingRefRow
  pub vectors : s.State
  pub versions : o.Versions
  pub queue : List JsonText
  pub dead_letters : List JsonText
  pub slept : List ℤ
  pub now : ℕ
  pub fresh : Uuid
