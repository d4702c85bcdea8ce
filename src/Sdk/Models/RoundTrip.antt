-- ===== src/Sdk/Models/RoundTrip.antt =====
-- sdks/python-sdk/cbir/models.py against catalog_service/interface_adapters/presenters: the JSON of
-- an item, and what the client reads of it.
use cbir_engine.Base.{Option, Text, codes, none, ok, pos, refl, some, ℕ, ◌≡◌}
use cbir_engine.Catalog.Presenters.{ItemResponse}
use cbir_engine.Kernel.Json.{Json, end, field, int, null, obj, str}
use cbir_engine.Sdk.Client.{json_of_dict}
use cbir_engine.Sdk.Models.{CatalogItem, item_from_api}

abbrev pub json_or_null : {A : Type 0} → (A → Json) → Option A → Json
json_or_null f none = null
json_or_null f (some a) = f a

abbrev pub json_count : ℕ → Json
json_count n = int (pos n)

-- An ItemResponse as JSON, for the text of a point in time.
abbrev pub item_json : (ℕ → Text) → ItemResponse → Json
item_json iso d = obj (
    field "id" (str d.id) (
      field "tenant_id" (str d.tenant_id) (
        field "status" (str (codes d.status)) (
          field "content_type" (str (codes d.content_type)) (
            field "metadata" (obj (json_of_dict d.metadata)) (
              field "external_id" (json_or_null str d.external_id) (
                field "size_bytes" (json_or_null json_count d.size_bytes) (
                  field "duplicate_of_id" (json_or_null str d.duplicate_of_id) (
                    field "failure_reason" (json_or_null str d.failure_reason) (
                      field "indexed_at" (json_or_null (λ t. str (iso t)) d.indexed_at) (
                        field "created_at" (str (iso d.created_at))
                          (field "updated_at" (str (iso d.updated_at)) end))))))))))))

-- What the client keeps of an item.
abbrev pub item_view : ItemResponse → CatalogItem
item_view d = record {
  id = str d.id;
  status = str (codes d.status);
  content_type = str (codes d.content_type);
  metadata = obj (json_of_dict d.metadata);
  external_id = json_or_null str d.external_id;
  size_bytes = json_or_null json_count d.size_bytes;
}

-- The client reads the six fields that it keeps of an item that the service presents.
pub item_from_api-item_json :
    (iso : ℕ → Text) (d : ItemResponse) → item_from_api (item_json iso d) ≡ ok (item_view d)
unfolding item_from_api
item_from_api-item_json iso d = refl
