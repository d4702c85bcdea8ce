-- ===== src/Sdk/Models.antt =====
-- sdks/python-sdk/cbir/models.py and errors.py: the client's view of a JSON response. A field holds
-- whatever JSON value the response has there.
pub mod RoundTrip
use cbir_engine.Base.{List, Option, Result, String, Text, [], err, none, ok, or_else, some, ℕ, ◌∷◌}
use cbir_engine.Kernel.Json.{Items, Json, arr, cons, end, field_of, nil, null, obj, str}

pub data SdkError : Type 0 where
  auth_error : Json → SdkError
  api_error : ℕ → Json → SdkError
  -- exceptions that the client lets through
  http_error : Text → SdkError
  os_error : SdkError
  key_error : String → SdkError
  type_error : SdkError
  attribute_error : SdkError
  decode_error : SdkError

pub record CatalogItem : Type 0 where
  pub id : Json
  pub status : Json
  pub content_type : Json
  pub metadata : Json
  pub external_id : Json
  pub size_bytes : Json

pub record SearchResult : Type 0 where
  pub item_id : Json
  pub score : Json
  pub metadata : Json

abbrev present : String → Option Json → Result SdkError Json
present k (some v) = ok v
present k none = err (key_error k)

-- data[k]
abbrev pub get_key : String → Json → Result SdkError Json
get_key k (obj fs) = present k (field_of k fs)
get_key k _ = err type_error

-- data.get(k, d), once `data[...]` has succeeded on the same value
abbrev pub get_or : String → Json → Json → Json
get_or k d (obj fs) = or_else (field_of k fs) d
get_or k d _ = d

abbrev pub with_key :
    {A : Type 0} → Result SdkError Json → (Json → Result SdkError A) → Result SdkError A
with_key (ok v) f = f v
with_key (err e) f = err e

-- CatalogItem.from_api
unfoldable pub item_from_api : Json → Result SdkError CatalogItem
item_from_api doc = with_key (get_key "id" doc) λ id. with_key (get_key "status" doc) λ status.
    with_key (get_key "content_type" doc) λ content_type. ok (record {
      id = id;
      status = status;
      content_type = content_type;
      metadata = get_or "metadata" (obj end) doc;
      external_id = get_or "external_id" null doc;
      size_bytes = get_or "size_bytes" null doc;
    })

-- SearchResult.from_api
unfoldable pub result_from_api : Json → Result SdkError SearchResult
result_from_api doc = with_key (get_key "item_id" doc) λ item_id.
    with_key (get_key "score" doc) λ score.
      ok (record { item_id = item_id; score = score; metadata = get_or "metadata" (obj end) doc })

abbrev pub prepend :
    {A : Type 0} → Result SdkError A → Result SdkError (List A) → Result SdkError (List A)
prepend (ok a) (ok rest) = ok (a ∷ rest)
prepend (ok a) (err e) = err e
prepend (err e) r = err e

abbrev pub each_item : {A : Type 0} → (Json → Result SdkError A) → Items → Result SdkError (List A)
each_item f nil = ok []
each_item f (cons v vs) = prepend (f v) (each_item f vs)

-- [f(d) for d in data], for an `f` that indexes `d` by a name: a text and the keys of an object
-- cannot be indexed so.
unfoldable pub each_of : {A : Type 0} → (Json → Result SdkError A) → Json → Result SdkError (List A)
each_of f (arr vs) = each_item f vs
each_of f (obj end) = ok []
each_of f (str []) = ok []
each_of f _ = err type_error
