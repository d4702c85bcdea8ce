-- ===== src/Sdk/Witnesses.antt =====
-- A service that registers one item, takes its upload and confirms it.
use cbir_engine.Base.{Text, [], codes, length, none, refl, some, ℕ, ◌∷◌, ◌≡◌}
use cbir_engine.Catalog.Fixtures.{bucket, owner, shelf, shop}
use cbir_engine.Catalog.Http.Routes.{get_route}
use cbir_engine.Catalog.Presenters.{ItemResponse}
use cbir_engine.Kernel.Json.{Json, end, field, null, obj, str}
use cbir_engine.Kernel.TenantId.{tenant_str}
use cbir_engine.Kernel.Uuid.{uuid_str}
use cbir_engine.Sdk.Client.{
  Calls, CbirClient, Reply, Surroundings, answered, complete, detail, get_item, ingest_image,
  new_client, register, request, settle,
}
use cbir_engine.Sdk.Client.Ingestion.{IsIngestion, ingest_image-IsIngestion}
use cbir_engine.Sdk.Client.Reading.{get_item-Reads, item_with_download_json, on_wire, read_as}
use cbir_engine.Sdk.Models.{item_from_api}
use cbir_engine.Sdk.Models.RoundTrip.{item_json}

abbrev seen_item : ItemResponse
seen_item = record {
  id = codes "i1";
  tenant_id = codes "t1";
  status = "queued";
  content_type = "image/png";
  metadata = [];
  external_id = none;
  size_bytes = some 3;
  duplicate_of_id = none;
  failure_reason = none;
  indexed_at = none;
  created_at = 1;
  updated_at = 2;
}

abbrev seen_json : Json
seen_json = item_json (λ n. []) seen_item

abbrev seen_upload : Json
seen_upload = obj (
    field "url" (str (codes "http://store/i1"))
      (field "method" (str (codes "PUT")) (field "headers" (obj end) end)))

abbrev json_reply : ℕ → Json → Reply
json_reply code j =
    answered (record { status_code = code; content = 1 ∷ []; json = some j; text = [] })

abbrev scripted : Calls → Reply
scripted (_ ∷ []) = json_reply 201 (obj (field "item" seen_json (field "upload" seen_upload end)))
scripted (_ ∷ _ ∷ []) = json_reply 200 null
scripted _ = json_reply 200 seen_json

abbrev scene : Surroundings
scene = record {
  reply = scripted;
  read_file = λ path. some (1 ∷ 2 ∷ 3 ∷ []);
  file_name = λ path. path;
  guess_type = λ name. none;
  shown = λ j. [];
}

abbrev caller : CbirClient
caller = new_client (codes "key") (codes "http://c/") (codes "http://q/")

ingest_image-IsIngestion_example :
    IsIngestion scene caller
      (codes "a.png")
      none
      none
      []
      (ingest_image scene caller (codes "a.png") none none [])
ingest_image-IsIngestion_example =
    ingest_image-IsIngestion scene caller (codes "a.png") none none []

-- The three requests succeed.
length-ingest_image : length (ingest_image scene caller (codes "a.png") none none []).1 ≡ 3
unfolding ingest_image register request settle detail complete item_from_api codes
length-ingest_image = refl

abbrev shown_time : ℕ → Text
shown_time t = []

abbrev answered_item : Surroundings
answered_item = record scene {
  reply = λ calls.
      on_wire (item_with_download_json shown_time) shown_time
        (get_route bucket shop (tenant_str owner) (uuid_str 9) shelf).0;
}

get_item-Reads_example :
    (get_item answered_item caller (uuid_str 9) []).0
    ≡ read_as shown_time (get_route bucket shop (tenant_str owner) (uuid_str 9) shelf).0
get_item-Reads_example =
    get_item-Reads answered_item caller bucket shop shown_time shown_time (tenant_str owner)
      (uuid_str 9) [] shelf refl
