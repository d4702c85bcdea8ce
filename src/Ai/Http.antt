-- ===== src/Ai/Http.antt =====
-- ai_service/interface_adapters: the internal endpoints and their responses. Base64 is the standard
-- library's.
use cbir_engine.Ai.Embeddings.{
  AiError, EmbedBatchOutput, EmbedInput, EmbeddingResult, Modality, Provider, empty_batch, generate,
  image, invalid_image, is_image, provider_error, text,
}
use cbir_engine.Ai.Rerank.{RerankInput, RerankOutput, RerankedItem, rerank_shortlist}
use cbir_engine.Base.{
  Bool, List, Option, Result, String, Text, [], err, if◌then◌else◌, is_blank, leb, length, map,
  none, not, ok, or_else, some, true, ℕ, ◌==◌, ◌||◌, ◌∷◌,
}
use cbir_engine.Kernel.Floats.{Floats}

pub record EmbedItemRequest : Type 0 where
  pub modality : Modality
  pub image_base64 : Option Text
  pub content : Option Text

pub record EmbedRequest : Type 0 where
  pub inputs : List EmbedItemRequest
  pub include_phash : Bool

pub record EmbedResponse (V : Type 0) : Type 0 where
  pub model_version : String
  pub embedding_dim : ℕ
  pub results : List (EmbeddingResult V)

pub record RerankResponse (V : Type 0) : Type 0 where
  pub model_version : String
  pub items : List (RerankedItem V)

-- present_embeddings
unfoldable pub present_embeddings : {V : Type 0} → EmbedBatchOutput V → EmbedResponse V
present_embeddings out = record {
  model_version = out.model_version;
  embedding_dim = out.embedding_dim;
  results = map (λ r. record { vector = r.vector; phash = r.phash }) out.results;
}

-- present_rerank
unfoldable pub present_rerank : {V : Type 0} → RerankOutput V → RerankResponse V
present_rerank out = record {
  model_version = out.model_version;
  items = map (λ i. record { id = i.id; score = i.score }) out.items;
}

pub data Response (A : Type 0) : Type 0 where
  success : A → Response A
  failure : ℕ → Response A

-- register_error_handlers; an exception with no handler is a 500
unfoldable pub status_for : AiError → ℕ
status_for empty_batch = 422
status_for invalid_image = 422
status_for provider_error = 500

abbrev answer : {A B : Type 0} → (A → B) → Result AiError A → Response B
answer present (ok a) = success (present a)
answer present (err e) = failure (status_for e)

-- A field of a request with `ge=1`.
abbrev at_least_one : Option ℕ → Bool
at_least_one none = true
at_least_one (some k) = leb 1 k

module _ (b64decode : Text → Option (List ℕ)) where
  abbrev image_input : Option (List ℕ) → Result AiError EmbedInput
  image_input none = err invalid_image
  image_input (some raw) = ok (record { modality = image; image_bytes = some raw; content = none })

  abbrev decoded_input : Option Text → Result AiError EmbedInput
  decoded_input none = err invalid_image
  decoded_input (some s) =
      let raw = image_input (b64decode s) in if is_blank s then err invalid_image else raw

  -- _to_embed_input
  unfoldable pub to_embed_input : EmbedItemRequest → Result AiError EmbedInput
  to_embed_input item =
      let shown = decoded_input item.image_base64 in
      if is_image item.modality
      then shown
      else ok
          (record { modality = text; image_bytes = none; content = some (or_else item.content []) })

  abbrev pub to_embed_inputs : List EmbedItemRequest → Result AiError (List EmbedInput)
  to_embed_inputs [] = ok []
  to_embed_inputs (i ∷ is) = elim (to_embed_input i) [
    | err e ↦ err e
    | ok x ↦ elim (to_embed_inputs is) [ err e ↦ err e | ok xs ↦ ok (x ∷ xs) ]
  ]

  abbrev embedded :
      {V : Type 0}
      → Provider V
      → Bool
      → Result AiError (List EmbedInput)
      → Response (EmbedResponse V)
  embedded provider include_phash (err e) = failure (status_for e)
  embedded provider include_phash (ok inputs) =
      answer present_embeddings (generate provider inputs include_phash)

  -- POST /internal/embed
  unfoldable pub embed : {V : Type 0} → Provider V → EmbedRequest → Response (EmbedResponse V)
  embed provider request =
      if length request.inputs == 0
      then failure 422
      else embedded provider request.include_phash (to_embed_inputs request.inputs)

-- POST /internal/rerank
unfoldable pub rerank : (fl : Floats) → RerankInput fl.F → Response (RerankResponse fl.F)
rerank fl request =
    if length request.candidates == 0 || not (at_least_one request.top_k)
    then failure 422
    else answer present_rerank (rerank_shortlist fl request)
