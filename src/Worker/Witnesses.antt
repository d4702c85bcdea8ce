-- ===== src/Worker/Witnesses.antt =====
-- Concrete jobs of the worker, over a vector store that takes everything and a model that is down.
use cbir_engine.Base.{
  Bool, List, Option, Text, [], arith, codes, false, inl, inr, none, pos, refl, some, true, ℕ, ◌∷◌,
  ◌≡◌,
}
use cbir_engine.Base.Strings.{is_space, strip, strip_by}
use cbir_engine.Catalog.Items.{CatalogItemRow}
use cbir_engine.Catalog.Ports.{IngestionJob}
use cbir_engine.Catalog.Storage.{job_payload}
use cbir_engine.Kernel.Json.{Json, end, field, int, str}
use cbir_engine.Kernel.Uuid.{int_16, uuid_str}
use cbir_engine.Kernel.Uuid.RoundTrip.{uuid_parse-uuid_str}
use cbir_engine.Kernel.Witnesses.{counting}
use cbir_engine.Vectors.Memory.Isolation.{memory_store, memory_store-IsIsolated}
use cbir_engine.Vectors.Port.{VectorStore}
use cbir_engine.Worker.Dedup.{find_duplicate, hamming_distance, ones}
use cbir_engine.Worker.Dedup.Closest.{IsClosest, find_duplicate-IsClosest}
use cbir_engine.Worker.Ports.{
  Outside, Settings, World, body, boto_core_error, embedded, transport_error,
}
use cbir_engine.Worker.Processor.{process}
use cbir_engine.Worker.Processor.Redelivery.{IsIdempotent, process-IsIdempotent}
use cbir_engine.Worker.Processor.Tenancy.{Unseen, process-Unseen}
use cbir_engine.Worker.Runner.{Job, attempts_of, handle, parse_job, turns}
use cbir_engine.Worker.Runner.Attempts.{Advances, handle-Advances}
use cbir_engine.Worker.Runner.Draining.{turns-Drains}
use cbir_engine.Worker.Runner.Intake.{parse_job-job_payload}

abbrev open_store : VectorStore ℕ
open_store = record {
  State = Unit {0};
  ensure_collection = λ t dim s. (true, s);
  upsert = λ t rs s. (true, s);
  search = λ t v limit filters with_vectors s. some [];
}

abbrev down : Outside ℕ
down = record {
  Versions = Unit {0};
  get_object = λ key. boto_core_error;
  post_embed = λ bytes. transport_error;
  incr_version = λ key v. (true, v);
  int_of_text = λ t. none;
  int_of_float = λ t. none;
}

abbrev settings : Settings
settings = record { max_attempts = pos 3; dedup_hamming_threshold = 4 }

abbrev indexed_row : CatalogItemRow
indexed_row = record {
  id = 9;
  tenant_id = 5;
  object_key = codes "photo";
  content_type = "image/png";
  status = "indexed";
  metadata = [];
  external_id = none;
  size_bytes = some 42;
  phash = some (codes "ff");
  duplicate_of_id = none;
  failure_reason = none;
  indexed_at = some 3;
  created_at = 1;
  updated_at = 1;
}

abbrev world : World open_store down
world = record {
  items = indexed_row ∷ [];
  embedding_refs = [];
  vectors = tt;
  versions = tt;
  queue = [];
  dead_letters = [];
  slept = [];
  now = 7;
  fresh = 30;
}

abbrev new_job : IngestionJob
new_job = record { tenant_id = uuid_str 5; item_id = uuid_str 9; object_key = codes "photo" }

parse_job-job_payload_example :
    (j : Job) × (parse_job (job_payload new_job) ≡ some j)
    × (j.item_id ≡ str (uuid_str 9))
    × (attempts_of open_store down settings j ≡ some (pos 0))
parse_job-job_payload_example = parse_job-job_payload open_store down settings new_job

abbrev known_hashes : List (Text × Text)
known_hashes = (codes "a", codes "f0") ∷ (codes "b", []) ∷ (codes "c", codes "fe") ∷ []

find_duplicate-IsClosest_example :
    (r : Option Text) × (find_duplicate (codes "ff") known_hashes 4 ≡ some r)
    × IsClosest (codes "ff") 4 known_hashes r
unfolding codes hamming_distance int_16 strip strip_by is_space ones
find_duplicate-IsClosest_example =
    find_duplicate-IsClosest (codes "ff") known_hashes 4
      (inr (refl, (4, refl)), (inl refl, (inr (refl, (1, refl)), tt)))

abbrev queued_row : CatalogItemRow
queued_row = record indexed_row { status = "queued" }

abbrev busy_world : World open_store down
busy_world = record world { items = queued_row ∷ [] }

-- The job is on the queue, and the store of photos does not answer.
abbrev crowded_world : World open_store down
crowded_world = record busy_world { queue = job_payload new_job ∷ [] }

turns-Drains_example : (turns open_store down settings 4 crowded_world).queue ≡ []
unfolding parse_job job_payload attempts_of
turns-Drains_example = turns-Drains open_store down settings 4 crowded_world (omega arith)

abbrev read_job : Job
read_job = record {
  item_id = str (uuid_str 9);
  fields = field "tenant_id" (str (uuid_str 5)) (
      field "item_id" (str (uuid_str 9))
        (field "object_key" (str (codes "photo")) (field "attempts" (int (pos 0)) end)));
}

handle-Advances_example :
    Advances open_store down settings read_job
      (pos 0)
      (handle open_store down settings (job_payload new_job) busy_world).0
unfolding parse_job job_payload attempts_of
handle-Advances_example =
    handle-Advances open_store down settings (job_payload new_job) read_job (pos 0) busy_world refl
      refl

abbrev no_match : Json → Json → Bool
no_match a b = false

abbrev kept_store : VectorStore ℕ
kept_store = memory_store counting no_match

abbrev up : Outside ℕ
up = record {
  Versions = Unit {0};
  get_object = λ key. body (1 ∷ []);
  post_embed = λ bytes. embedded (3 ∷ 4 ∷ []) (codes "ff") "local";
  incr_version = λ key v. (true, v);
  int_of_text = λ t. none;
  int_of_float = λ t. none;
}

abbrev stored_world : World kept_store up
stored_world = record {
  items = queued_row ∷ [];
  embedding_refs = [];
  vectors = [];
  versions = tt;
  queue = [];
  dead_letters = [];
  slept = [];
  now = 7;
  fresh = 30;
}

process-Unseen_example :
    Unseen kept_store up 6 stored_world (process kept_store up settings (uuid_str 9) stored_world).1
process-Unseen_example =
    process-Unseen kept_store up 6 settings (uuid_str 9) 9 queued_row stored_world
      (memory_store-IsIsolated counting no_match) (uuid_parse-uuid_str 9 (omega arith)) refl
      (omega arith) (omega arith) (λ e. omega (arith, e))

process-IsIdempotent_example :
    IsIdempotent kept_store up settings
      (uuid_str 9)
      (process kept_store up settings (uuid_str 9) stored_world)
process-IsIdempotent_example =
    process-IsIdempotent kept_store up settings (uuid_str 9) 9 stored_world
      (uuid_parse-uuid_str 9 (omega arith))
