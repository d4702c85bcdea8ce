-- ===== src/Sdk/Client/Reading.antt =====
-- CBIRClient.get_item (sdks/python-sdk/cbir/client.py) against the route of catalog-service that
-- answers it.
use cbir_engine.Catalog.UseCases
use cbir_engine.Base.{
  Result, Text, [], ap, arith, err, false, leb, lift, ok, refl, some, true, ℕ, ◌==◌, ◌>>=◌, ◌||◌,
  ◌∙◌, ◌∷◌, ◌≡◌, ◌≢◌, ◌≤◌,
}
use cbir_engine.Base.Effects.{followed}
use cbir_engine.Catalog.Http.{Response, failure, respond, status_for, success, unit_of_work}
use cbir_engine.Catalog.Http.Routes.{get_route, rendered}
use cbir_engine.Catalog.Items.{
  CatalogError, database_error, duplicate_external_id, integrity_error, item_not_found,
  object_storage_error, queue_error, unsupported_content_type, upload_not_confirmable, value_error,
}
use cbir_engine.Catalog.Ports.{CatalogSettings, ItemWithDownloadOutput, Outside, World}
use cbir_engine.Catalog.Presenters.{ItemWithDownloadResponse, present_item_with_download}
use cbir_engine.Kernel.Json.{Json, end, field, obj, str}
use cbir_engine.Sdk.Client.{
  Call, Calls, CbirClient, Reply, Surroundings, answered, api, detail, get_item, item_path, no_body,
  request, settle,
}
use cbir_engine.Sdk.Models.{CatalogItem, SdkError, api_error, get_key, item_from_api}
use cbir_engine.Sdk.Models.RoundTrip.{item_from_api-item_json, item_json, item_view, json_or_null}

-- The JSON of an ItemWithDownloadResponse.
abbrev pub item_with_download_json : (ℕ → Text) → ItemWithDownloadResponse → Json
item_with_download_json iso r = obj (
    field "item" (item_json iso r.item)
      (field "download_url" (json_or_null str r.download_url) end))

-- A response on the wire: the JSON of the result, or of an error's detail.
abbrev pub on_wire : {A : Type 0} → (A → Json) → (ℕ → Text) → Response A → Reply
on_wire json explain (success s a) =
    answered (record { status_code = s; content = 123 ∷ []; json = some (json a); text = [] })
on_wire json explain (failure s) = answered (record {
  status_code = s;
  content = 123 ∷ [];
  json = some (obj (field "detail" (str (explain s)) end));
  text = [];
})

-- What the caller of the client gets for the response of the service.
abbrev pub read_as : (ℕ → Text) → Response ItemWithDownloadResponse → Result SdkError CatalogItem
read_as explain (success s r) = ok (item_view r.item)
read_as explain (failure s) = err (api_error s (str (explain s)))

module _ (s : Surroundings) (client : CbirClient) (o : Outside) (settings : CatalogSettings)
    (iso explain : ℕ → Text) where
  abbrev pub get_call : Text → Call
  get_call item_id = api client.catalog client.api_key "GET" (item_path item_id) no_body

  -- A response of the catalog: 200, or the status of one of its errors.
  abbrev IsCatalogResponse : Response ItemWithDownloadResponse → Type 0
  IsCatalogResponse (success n r) = n ≡ 200
  IsCatalogResponse (failure n) = (400 ≤ n) × (n ≢ 401) × (n ≢ 403)

  settle-success :
      {A : Type 0} (json : A → Json) (a : A)
      → settle true (on_wire json explain (success 200 a)) ≡ ok (json a)
  unfolding settle
  settle-success json a = refl

  settle-failure :
      {A : Type 0} (json : A → Json) (n : ℕ)
      → 400 ≤ n
      → n ≢ 401
      → n ≢ 403
      → settle true (on_wire json explain (failure n)) ≡ err (api_error n (str (explain n)))
  unfolding settle detail
  settle-failure json n h k m =
      let denied : (n == 401 || n == 403) ≡ false = ground arith in
      let failing : leb 400 n ≡ true = ground arith in rw denied (rw failing refl)

  -- The rest of `get_item` on what `_request` came to.
  abbrev after_request : Result SdkError Json → Calls → Result SdkError CatalogItem
  after_request r calls =
      (followed (λ fetched. lift (get_key "item" fetched) >>= λ item. lift (item_from_api item))
        (r, calls)).0

  get_item-Response :
      (item_id : Text) (calls : Calls) (r : Response ItemWithDownloadResponse)
      → IsCatalogResponse r
      → s.reply (get_call item_id ∷ calls) ≡ on_wire (item_with_download_json iso) explain r
      → (get_item s client item_id calls).0 ≡ read_as explain r
  unfolding get_item request
  get_item-Response item_id calls (success n r) h e =
      let sent = get_call item_id ∷ calls in
      ap (λ reply. after_request (settle true reply) sent) e
      ∙ ap
          (λ k.
            after_request
              (settle true (on_wire (item_with_download_json iso) explain (success k r))) sent)
          h
      ∙ ap (λ t. after_request t sent) (settle-success (item_with_download_json iso) r)
      ∙ item_from_api-item_json iso r.item
  get_item-Response item_id calls (failure n) h e =
      let sent = get_call item_id ∷ calls in
      ap (λ reply. after_request (settle true reply) sent) e
      ∙ ap (λ t. after_request t sent) (settle-failure (item_with_download_json iso) n h.0 h.1 h.2)

  rendered-IsCatalogResponse :
      (p : Result CatalogError ItemWithDownloadOutput × World o)
      → IsCatalogResponse
          (rendered {S = World o} present_item_with_download (respond 200 p.0, p.1)).0
  unfolding status_for
  rendered-IsCatalogResponse (ok r, w) = refl
  rendered-IsCatalogResponse (err (item_not_found raw), w) = omega arith
  rendered-IsCatalogResponse (err (duplicate_external_id e), w) = omega arith
  rendered-IsCatalogResponse (err upload_not_confirmable, w) = omega arith
  rendered-IsCatalogResponse (err (unsupported_content_type c), w) = omega arith
  rendered-IsCatalogResponse (err value_error, w) = omega arith
  rendered-IsCatalogResponse (err object_storage_error, w) = omega arith
  rendered-IsCatalogResponse (err integrity_error, w) = omega arith
  rendered-IsCatalogResponse (err queue_error, w) = omega arith
  rendered-IsCatalogResponse (err database_error, w) = omega arith

  -- When catalog-service answers the client's request, `get_item` returns the six fields of the item
  -- that the service found, or raises an API error with the status and the detail of the service's
  -- response.
  pub get_item-Reads :
      (tenant_id item_id : Text) (calls : Calls) (w : World o)
      → let response = (get_route o settings tenant_id item_id w).0 in
        s.reply (get_call item_id ∷ calls) ≡ on_wire (item_with_download_json iso) explain response
        → (get_item s client item_id calls).0 ≡ read_as explain response
  unfolding get_route
  get_item-Reads tenant_id item_id calls w e =
      get_item-Response item_id calls (get_route o settings tenant_id item_id w).0
        (rendered-IsCatalogResponse
          (unit_of_work o (UseCases.get_item o settings tenant_id item_id) w))
        e
