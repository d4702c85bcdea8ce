-- ===== src/Sdk/Client.antt =====
-- sdks/python-sdk/cbir/client.py: every method of CBIRClient, over the requests that it has sent.
-- What the services, the object store and the file system answer is a parameter; it may depend on
-- every request sent so far.
pub mod Reading
pub mod Ingestion
use mathlib.Core.List.{reverse}
use cbir_engine.Base.{
  Bool, Exec, List, Option, Result, String, Text, [], codes, err, false, if◌then◌else◌, is_blank,
  leb, lift, none, not, ok, or_else, pure, some, true, ℕ, ℤ, ◌++◌, ◌==◌, ◌>>=◌, ◌>>◌, ◌||◌, ◌∷◌,
}
use cbir_engine.Base.Strings.{lstrip_by}
use cbir_engine.Catalog.UseCases.Registration.{registered}
use cbir_engine.Kernel.Json.{Dict, Fields, Json, boolean, end, field, field_of, int, null, obj, str}
use cbir_engine.Sdk.Models.{
  CatalogItem, SdkError, SearchResult, api_error, attribute_error, auth_error, decode_error,
  each_of, get_key, http_error, item_from_api, os_error, result_from_api,
}

pub record HttpResponse : Type 0 where
  pub status_code : ℕ
  pub content : List ℕ
  -- response.json(), `none` for a ValueError
  pub json : Option Json
  pub text : Text

-- A response, or the message of an httpx.HTTPError.
pub data Reply : Type 0 where
  answered : HttpResponse → Reply
  failed : Text → Reply

pub data FormText : Type 0 where
  plain : Text → FormText
  number : ℤ → FormText
  dumped : Dict → FormText

pub data Body : Type 0 where
  no_body : Body
  json_body : Json → Body
  query_params : List (String × Json) → Body
  multipart : Text → List ℕ → List (String × FormText) → Body

-- A request to a service with the client's key, or an upload to a signed URL.
pub data Call : Type 0 where
  api : Text → Text → String → Text → Body → Call
  upload : Json → Json → List ℕ → Json → Call
  closed : Text → Call

-- The calls so far, the latest first.
abbrev pub Calls : Type 0
Calls = List Call

pub record Surroundings : Type 0 where
  pub reply : Calls → Reply
  pub read_file : Text → Option (List ℕ)
  pub file_name : Text → Text
  pub guess_type : Text → Option Text
  -- the text of a JSON value that is not a text, in an f-string
  pub shown : Json → Text

pub record CbirClient : Type 0 where
  pub api_key : Text
  pub catalog : Text
  pub query : Text

-- url.rstrip("/")
abbrev bare_url : Text → Text
bare_url url = reverse (lstrip_by (λ c. c == 47) (reverse url))

-- CBIRClient.__init__
unfoldable pub new_client : Text → Text → Text → CbirClient
new_client api_key catalog_url query_url = record {
  api_key = api_key;
  catalog = bare_url catalog_url;
  query = bare_url query_url;
}

abbrev detail_of : Text → Option Json → Result SdkError Json
detail_of text none = ok (str text)
detail_of text (some (obj fs)) = ok (or_else (field_of "detail" fs) (str text))
detail_of text (some _) = err attribute_error

-- _detail
unfoldable pub detail : HttpResponse → Result SdkError Json
detail r = detail_of r.text r.json

abbrev pub body_of : Option Json → Result SdkError Json
body_of (some j) = ok j
body_of none = err decode_error

abbrev pub fails_with : {A : Type 0} → (Json → SdkError) → Result SdkError Json → Result SdkError A
fails_with f (ok d) = err (f d)
fails_with f (err e) = err e

-- What `_request` makes of a reply.
unfoldable pub settle : Bool → Reply → Result SdkError Json
settle expect_json (failed message) = err (api_error 0 (str (codes "transport error: " ++ message)))
settle expect_json (answered r) =
    if r.status_code == 401 || r.status_code == 403
    then fails_with auth_error (detail r)
    else if leb 400 r.status_code
    then fails_with (api_error r.status_code) (detail r)
    else if not expect_json || is_blank r.content
    then ok (obj end)
    else body_of r.json

abbrev pub json_of_dict : Dict → Fields
json_of_dict [] = end
json_of_dict ((k, v) ∷ d) = field k v (json_of_dict d)

abbrev pub text_or_null : Option Text → Json
text_or_null none = null
text_or_null (some s) = str s

abbrev filter_form : Option Dict → List (String × FormText)
filter_form none = []
filter_form (some []) = []
filter_form (some (f ∷ fs)) = ("filters", dumped (f ∷ fs)) ∷ []

abbrev status_param : Option Text → List (String × Json)
status_param none = []
status_param (some []) = []
status_param (some (c ∷ s)) = ("status", str (c ∷ s)) ∷ []

abbrev pub item_path : Text → Text
item_path item_id = codes "/v1/items/" ++ item_id

abbrev pub opened : Option (List ℕ) → Result SdkError (List ℕ)
opened (some bytes) = ok bytes
opened none = err os_error

-- The test of an upload's reply.
abbrev pub accepted : Reply → Result SdkError (Unit {0})
accepted (failed message) = err (http_error message)
accepted (answered r) =
    if r.status_code == 200 || r.status_code == 204
    then ok tt
    else err (api_error r.status_code (str (codes "object upload failed")))

module _ (s : Surroundings) (client : CbirClient) where
  abbrev pub Session : Type 0 → Type 0
  Session A = Exec Calls SdkError A

  -- str(value) in an f-string
  abbrev pub formatted : Json → Text
  formatted (str t) = t
  formatted j = s.shown j

  -- _request
  unfoldable pub request : Text → String → Text → Bool → Body → Session Json
  request base method path expect_json body calls =
      let sent = api base client.api_key method path body ∷ calls in
      (settle expect_json (s.reply sent), sent)

  -- open(path, "rb").read()
  abbrev pub read : Text → Session (List ℕ)
  read path = lift (opened (s.read_file path))

  -- httpx.request(upload["method"], upload["url"], ...), and the test of its status
  abbrev pub put_object : Json → Json → List ℕ → Json → Session (Unit {0})
  put_object method url bytes headers calls =
      let sent = upload method url bytes headers ∷ calls in (accepted (s.reply sent), sent)

  abbrev pub registration : Text → Option Dict → Option Text → Body
  registration content_type metadata external_id = json_body (
      obj (
        field "content_type" (str content_type) (
          field "metadata" (obj (json_of_dict (or_else metadata [])))
            (field "external_id" (text_or_null external_id) end))))

  -- _register
  unfoldable pub register : Text → Option Dict → Option Text → Session Json
  register content_type metadata external_id =
      request client.catalog "POST" (codes "/v1/items") true
        (registration content_type metadata external_id)

  abbrev pub confirm_path : Json → Text
  confirm_path id = item_path (formatted id) ++ codes "/confirm"

  abbrev pub guessed_type : Text → Text
  guessed_type path = or_else (s.guess_type (s.file_name path)) (codes "image/jpeg")

  -- Upload and confirmation of a registered item.
  unfoldable pub complete : Text → Json → Session CatalogItem
  complete path registered = do
    item ← lift (get_key "item" registered)
    target ← lift (get_key "upload" registered)
    bytes ← read path
    method ← lift (get_key "method" target)
    url ← lift (get_key "url" target)
    headers ← lift (get_key "headers" target)
    sent ← put_object method url bytes headers
    id ← lift (get_key "id" item)
    confirmed ← request client.catalog "POST" (confirm_path id) true no_body
    lift (item_from_api confirmed)

  unfoldable pub ingest_image : Text → Option Dict → Option Text → Session CatalogItem
  ingest_image path metadata external_id = do
    registered ← register (guessed_type path) metadata external_id
    complete path registered

  unfoldable pub get_item : Text → Session CatalogItem
  get_item item_id = do
    fetched ← request client.catalog "GET" (item_path item_id) true no_body
    item ← lift (get_key "item" fetched)
    lift (item_from_api item)

  unfoldable pub list_items : Option Text → ℤ → Session (List CatalogItem)
  list_items status limit = do
    fetched ←
        request client.catalog "GET" (codes "/v1/items") true
          (query_params (("limit", int limit) ∷ status_param status))
    lift (each_of item_from_api fetched)

  unfoldable pub delete_item : Text → Session (Unit {0})
  delete_item item_id = do
    fetched ← request client.catalog "DELETE" (item_path item_id) false no_body
    pure tt

  unfoldable pub submit_feedback : Text → Text → Bool → Session (Unit {0})
  submit_feedback item_id query_ref relevant = do
    fetched ← request client.catalog "POST" (codes "/v1/feedback") true (
        json_body (
          obj (
            field "item_id" (str item_id)
              (field "query_ref" (str query_ref) (field "relevant" (boolean relevant) end)))))
    pure tt

  abbrev results_of : Json → Session (List SearchResult)
  results_of payload = do
    results ← lift (get_key "results" payload)
    lift (each_of result_from_api results)

  unfoldable pub search_by_image : Text → ℤ → Option Dict → Session (List SearchResult)
  search_by_image path top_k filters = do
    bytes ← read path
    payload ←
        request client.query "POST" (codes "/v1/search/image") true
          (multipart (s.file_name path) bytes (("top_k", number top_k) ∷ filter_form filters))
    results_of payload

  unfoldable pub search_by_text : Text → ℤ → Option Dict → Session (List SearchResult)
  search_by_text query top_k filters = do
    payload ← request client.query "POST" (codes "/v1/search/text") true (
        json_body (
          obj (
            field "query" (str query) (
              field "top_k" (int top_k)
                (field "filters" (obj (json_of_dict (or_else filters []))) end)))))
    results_of payload

  unfoldable pub search_composed : Text → Text → ℤ → Option Dict → Session (List SearchResult)
  search_composed path modifier top_k filters = do
    bytes ← read path
    payload ← request client.query "POST" (codes "/v1/search/composed") true (
        multipart (s.file_name path) bytes
          (("modifier", plain modifier) ∷ ("top_k", number top_k) ∷ filter_form filters))
    results_of payload

  unfoldable pub close : Session (Unit {0})
  close calls = (ok tt, closed client.query ∷ closed client.catalog ∷ calls)
