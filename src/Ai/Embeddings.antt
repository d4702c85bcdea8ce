-- ===== src/Ai/Embeddings.antt =====
-- ai_service/application/use_cases/embeddings.py and the embed endpoint: a mixed batch is embedded
-- by modality, and the results are put back in the caller's order.
pub mod Positions
pub mod Order
use cbir_engine.Base.{
  Bool, List, Option, Result, String, Text, [], err, false, if◌then◌else◌, map, none, ok, or_else,
  some, suc, true, zero, ℕ, ◌∷◌,
}

pub data AiError : Type 0 where
  empty_batch : AiError
  invalid_image : AiError
  provider_error : AiError

pub data Modality : Type 0 where
  image text : Modality

abbrev pub is_image : Modality → Bool
is_image image = true
is_image text = false

pub record EmbedInput : Type 0 where
  pub modality : Modality
  pub image_bytes : Option (List ℕ)
  pub content : Option Text

pub record EmbeddingResult (V : Type 0) : Type 0 where
  pub vector : V
  pub phash : Option Text

pub record EmbedBatchOutput (V : Type 0) : Type 0 where
  pub model_version : String
  pub embedding_dim : ℕ
  pub results : List (EmbeddingResult V)

-- EmbeddingProviderPort; V is the type of vectors
pub record Provider (V : Type 0) : Type 0 where
  pub model_version : String
  pub embedding_dim : ℕ
  pub embed_images : List (List ℕ) → Result AiError (List V)
  pub embed_texts : List Text → Result AiError (List V)
  pub perceptual_hash : List ℕ → Result AiError Text

-- [i for i, x in enumerate(inputs) if x.modality is m]
abbrev pub positions : Bool → ℕ → List EmbedInput → List ℕ
positions wanted i [] = []
positions wanted i (x ∷ xs) =
    let rest = positions wanted (suc i) xs in
    if is_image x.modality
    then (if wanted then i ∷ rest else rest)
    else (if wanted then rest else i ∷ rest)

abbrev pub input_at : List EmbedInput → ℕ → Option EmbedInput
input_at [] i = none
input_at (x ∷ xs) zero = some x
input_at (x ∷ xs) (suc i) = input_at xs i

-- inputs[i].image_bytes or b"", and inputs[i].text or ""
abbrev pub bytes_at : List EmbedInput → ℕ → List ℕ
bytes_at xs i = elim (input_at xs i) [ none ↦ [] | some x ↦ or_else x.image_bytes [] ]

abbrev pub text_at : List EmbedInput → ℕ → Text
text_at xs i = elim (input_at xs i) [ none ↦ [] | some x ↦ or_else x.content [] ]

abbrev pub put_at : {A : Type 0} → List (Option A) → ℕ → A → List (Option A)
put_at [] i a = []
put_at (x ∷ xs) zero a = some a ∷ xs
put_at (x ∷ xs) (suc i) a = x ∷ put_at xs i a

abbrev pub empty_slots : {A : Type 0} → List EmbedInput → List (Option A)
empty_slots [] = []
empty_slots (x ∷ xs) = none ∷ empty_slots xs

-- [r for r in results if r is not None]
abbrev pub filled : {A : Type 0} → List (Option A) → List A
filled [] = []
filled (none ∷ xs) = filled xs
filled (some a ∷ xs) = a ∷ filled xs

module _ {V : Type 0} (provider : Provider V) where
  abbrev pub call_images : List (List ℕ) → Result AiError (List V)
  call_images [] = ok []
  call_images (b ∷ bs) = provider.embed_images (b ∷ bs)

  abbrev pub call_texts : List Text → Result AiError (List V)
  call_texts [] = ok []
  call_texts (t ∷ ts) = provider.embed_texts (t ∷ ts)

  abbrev pub hash_for : Bool → List ℕ → Result AiError (Option Text)
  hash_for false bytes = ok none
  hash_for true bytes = elim (provider.perceptual_hash bytes) [ ok h ↦ ok (some h) | err e ↦ err e ]

  -- The loop over zip(image_positions, image_vectors).
  abbrev pub place_images :
      Bool
      → List EmbedInput
      → List ℕ
      → List V
      → List (Option (EmbeddingResult V))
      → Result AiError (List (Option (EmbeddingResult V)))
  place_images include_phash xs (i ∷ is) (v ∷ vs) slots =
      elim (hash_for include_phash (bytes_at xs i)) [
        | ok h ↦
            place_images include_phash xs is vs (put_at slots i (record { vector = v; phash = h }))
        | err e ↦ err e
      ]
  place_images include_phash xs _ _ slots = ok slots

  abbrev pub place_texts :
      List ℕ → List V → List (Option (EmbeddingResult V)) → List (Option (EmbeddingResult V))
  place_texts (i ∷ is) (v ∷ vs) slots =
      place_texts is vs (put_at slots i (record { vector = v; phash = none }))
  place_texts _ _ slots = slots

  -- GenerateEmbeddings.execute
  unfoldable pub generate : List EmbedInput → Bool → Result AiError (EmbedBatchOutput V)
  generate [] include_phash = err empty_batch
  generate (x ∷ xs) include_phash =
      let inputs = x ∷ xs in
      let image_positions = positions true 0 inputs in
      let text_positions = positions false 0 inputs in
      elim (call_images (map (bytes_at inputs) image_positions)) [
        | err e ↦ err e
        | ok image_vectors ↦ elim (call_texts (map (text_at inputs) text_positions)) [
          | err e ↦ err e
          | ok text_vectors ↦
              elim (place_images include_phash inputs image_positions image_vectors
                (empty_slots inputs)) [
                  | err e ↦ err e
                  | ok slots ↦ ok (record {
                    model_version = provider.model_version;
                    embedding_dim = provider.embedding_dim;
                    results = filled (place_texts text_positions text_vectors slots);
                  })
                ]
        ]
      ]
