-- ===== src/Sdk/Client/Ingestion.antt =====
-- CBIRClient.ingest_image (sdks/python-sdk/cbir/client.py): the requests that one call sends.
use cbir_engine.Base.{
  Exec, List, Option, Result, Text, codes, err, inl, inr, lift, ok, refl, true, ℕ, ◌>>=◌, ◌∷◌, ◌≡◌,
  ◌⊎◌,
}
use cbir_engine.Base.Effects.{followed}
use cbir_engine.Catalog.UseCases.Registration.{registered}
use cbir_engine.Kernel.Json.{Dict, Json}
use cbir_engine.Sdk.Client.{
  Call, Calls, CbirClient, Surroundings, accepted, api, complete, confirm_path, guessed_type,
  ingest_image, no_body, opened, read, register, registration, request, settle, upload,
}
use cbir_engine.Sdk.Models.{CatalogItem, SdkError, get_key, item_from_api}

module _ (s : Surroundings) (client : CbirClient) (path : Text) (registered : Json)
    (calls : Calls) where
  -- How the requests go on after a registration that was answered by `registered`.
  pub data IsCompletion : Result SdkError CatalogItem → Calls → Type 0 where
    none_sent : (e : SdkError) → IsCompletion (err e) calls
    upload_last :
        (method url headers : Json) (bytes : List ℕ) (e : SdkError)
        → opened (s.read_file path) ≡ ok bytes
        → IsCompletion (err e) (upload method url bytes headers ∷ calls)
    confirm_last :
        (method url headers item id : Json) (bytes : List ℕ) (r : Result SdkError CatalogItem)
        → opened (s.read_file path) ≡ ok bytes
        → get_key "item" registered ≡ ok item
        → get_key "id" item ≡ ok id
        → accepted (s.reply (upload method url bytes headers ∷ calls)) ≡ ok tt
        → IsCompletion r (
            api client.catalog client.api_key "POST" (confirm_path s client id) no_body
            ∷ upload method url bytes headers
            ∷ calls)

  abbrev Completes : Result SdkError CatalogItem × Calls → Type 0
  Completes w = IsCompletion w.0 w.1

  -- A step that sends nothing, and the rest of the session.
  followed-lifted :
      {A : Type 0} (r : Result SdkError A) (f : A → Exec Calls SdkError CatalogItem)
      → ((a : A) → r ≡ ok a → Completes (f a calls))
      → Completes (followed f (r, calls))
  followed-lifted (ok a) f h = h a refl
  followed-lifted (err e) f h = none_sent e

  module _ (method url headers item : Json) (bytes : List ℕ) where
    abbrev sent : Calls
    sent = upload method url bytes headers ∷ calls

    abbrev confirm : Exec Calls SdkError CatalogItem
    confirm = do
      id ← lift (get_key "id" item)
      answer ← request s client client.catalog "POST" (confirm_path s client id) true no_body
      lift (item_from_api answer)

    answer-Completes :
        (id : Json) (answered_with : Result SdkError Json)
        → opened (s.read_file path) ≡ ok bytes
        → get_key "item" registered ≡ ok item
        → accepted (s.reply sent) ≡ ok tt
        → get_key "id" item ≡ ok id
        → Completes (
            followed
              (λ answer. lift (item_from_api answer))
              (
                answered_with,
                api client.catalog client.api_key "POST" (confirm_path s client id) no_body ∷ sent,
              ))
    answer-Completes id (ok answer) read found reply key =
        confirm_last method url headers item id bytes (item_from_api answer) read found key reply
    answer-Completes id (err e) read found reply key =
        confirm_last method url headers item id bytes (err e) read found key reply

    confirm-Completes :
        (found_id : Result SdkError Json)
        → opened (s.read_file path) ≡ ok bytes
        → get_key "item" registered ≡ ok item
        → accepted (s.reply sent) ≡ ok tt
        → get_key "id" item ≡ found_id
        → Completes (
            followed
              (λ id.
                request s client client.catalog "POST" (confirm_path s client id) true no_body
                >>= λ answer. lift (item_from_api answer))
              (found_id, sent))
    unfolding request
    confirm-Completes (ok id) read found reply key = answer-Completes id _ read found reply key
    confirm-Completes (err e) read found reply key = upload_last method url headers bytes e read

    followed-Completes :
        (r : Result SdkError (Unit {0}))
        → opened (s.read_file path) ≡ ok bytes
        → get_key "item" registered ≡ ok item
        → accepted (s.reply sent) ≡ r
        → Completes (followed (λ done. confirm) (r, sent))
    followed-Completes (ok done) read found reply =
        confirm-Completes (get_key "id" item) read found reply refl
    followed-Completes (err e) read found reply = upload_last method url headers bytes e read

  -- After the registration the client uploads the file's bytes, and confirms the registered item only
  -- when the upload was accepted.
  complete-IsCompletion :
      let (r, after) = complete s client path registered calls in IsCompletion r after
  unfolding complete request
  complete-IsCompletion = followed-lifted (get_key "item" registered) _ λ item found.
      followed-lifted (get_key "upload" registered) _ λ target _.
        followed-lifted (opened (s.read_file path)) _ λ bytes read.
          followed-lifted (get_key "method" target) _ λ method _.
            followed-lifted (get_key "url" target) _ λ url _.
              followed-lifted (get_key "headers" target) _ λ headers _.
                followed-Completes method url headers item bytes
                  (accepted (s.reply (upload method url bytes headers ∷ calls))) read found refl

module _ (s : Surroundings) (client : CbirClient) (path : Text) (metadata : Option Dict)
    (external_id : Option Text) (calls : Calls) where
  abbrev pub register_call : Call
  register_call =
      api client.catalog client.api_key "POST" (codes "/v1/items")
        (registration s client (guessed_type s client path) metadata external_id)

  -- `r` and `after` are what an ingestion that starts after `calls` may come to.
  abbrev pub IsIngestion : Result SdkError CatalogItem × Calls → Type 0
  IsIngestion w =
      ((e : SdkError) × (settle true (s.reply (register_call ∷ calls)) ≡ err e)
        × (w ≡ (err e, register_call ∷ calls)))
      ⊎ ((registered : Json) × (settle true (s.reply (register_call ∷ calls)) ≡ ok registered)
          × IsCompletion s client path registered (register_call ∷ calls) w.0 w.1)

  followed-register :
      (r : Result SdkError Json)
      → settle true (s.reply (register_call ∷ calls)) ≡ r
      → IsIngestion
          (followed (λ registered. complete s client path registered) (r, register_call ∷ calls))
  followed-register (ok registered) h =
      inr (registered, h, complete-IsCompletion s client path registered (register_call ∷ calls))
  followed-register (err e) h = inl (e, h, refl)

  -- An ingestion sends the registration first. When it fails, so does the ingestion, with no further
  -- request. Otherwise the client sends nothing more, or uploads the bytes of the file, and it
  -- confirms the item that was registered only after the upload was accepted; it returns an item only
  -- when all three were sent.
  pub ingest_image-IsIngestion : IsIngestion (ingest_image s client path metadata external_id calls)
  unfolding ingest_image register request
  ingest_image-IsIngestion = followed-register (settle true (s.reply (register_call ∷ calls))) refl
