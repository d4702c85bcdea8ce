-- ===== src/Ai/Embeddings/Order.antt =====
-- GenerateEmbeddings.execute (ai_service/application/use_cases/embeddings.py): each input has its own
-- result, in the order of the inputs.
use cbir_engine.Ai.Embeddings.{
  AiError, EmbedInput, EmbeddingResult, Provider, bytes_at, call_images, call_texts, empty_slots,
  filled, generate, hash_for, is_image, place_images, place_texts, positions, put_at, text_at,
}
use cbir_engine.Ai.Embeddings.Positions.{map-bytes_at, map-text_at, positions-suc}
use cbir_engine.Base.{
  All, Bool, Bool-cases, List, Option, Result, Result-cases, Text, [], ap, err, false,
  if◌then◌else◌, inl, inr, map, none, ok, or_else, refl, some, suc, true, ℕ, ◌∙◌, ◌∷◌, ◌≡◌,
}

abbrev pub image_bytes_of : EmbedInput → List ℕ
image_bytes_of x = or_else x.image_bytes []

abbrev pub text_of : EmbedInput → Text
text_of x = or_else x.content []

module _ {V : Type 0} (provider : Provider V) (Decodes : List ℕ → Type 0) (f : List ℕ → V)
    (g : Text → V) (hash : List ℕ → Text) where
  -- The provider embeds the images that decode and all texts one by one, in the order given.
  pub record IsPointwise : Type 0 where
    pub images : (bs : List (List ℕ)) → All Decodes bs → provider.embed_images bs ≡ ok (map f bs)
    pub texts : (ts : List Text) → provider.embed_texts ts ≡ ok (map g ts)
    pub hashes : (b : List ℕ) → Decodes b → provider.perceptual_hash b ≡ ok (hash b)

  abbrev pub image_result : Bool → EmbedInput → EmbeddingResult V
  image_result include_phash x = record {
    vector = f (image_bytes_of x);
    phash = if include_phash then some (hash (image_bytes_of x)) else none;
  }

  abbrev pub text_result : EmbedInput → EmbeddingResult V
  text_result x = record { vector = g (text_of x); phash = none }

  -- The result of one input.
  abbrev pub result_of : Bool → EmbedInput → EmbeddingResult V
  result_of include_phash x =
      if is_image x.modality then image_result include_phash x else text_result x

  abbrev Slots : Type 0
  Slots = List (Option (EmbeddingResult V))

  abbrev behind : Option (EmbeddingResult V) → Result AiError Slots → Result AiError Slots
  behind s (ok slots) = ok (s ∷ slots)
  behind s (err e) = err e

  place_images-suc :
      (ph : Bool) (x : EmbedInput) (xs : List EmbedInput) (is : List ℕ) (vs : List V)
      (s : Option (EmbeddingResult V)) (slots : Slots)
      → place_images provider ph (x ∷ xs) (map suc is) vs (s ∷ slots)
        ≡ behind s (place_images provider ph xs is vs slots)
  place_images-suc ph x xs [] vs s slots = refl
  place_images-suc ph x xs (i ∷ is) [] s slots = refl
  place_images-suc ph x xs (i ∷ is) (v ∷ vs) s slots =
      elim (Result-cases (hash_for provider ph (bytes_at xs i))) [
        | inl (h, e) ↦
            rw (e, place_images)
              (place_images-suc ph x xs is vs s (put_at slots i (record { vector = v; phash = h })))
        | inr (h, e) ↦ rw (e, place_images) refl
      ]

  place_texts-suc :
      (is : List ℕ) (vs : List V) (s : Option (EmbeddingResult V)) (slots : Slots)
      → place_texts provider (map suc is) vs (s ∷ slots) ≡ s ∷ place_texts provider is vs slots
  place_texts-suc [] vs s slots = refl
  place_texts-suc (i ∷ is) [] s slots = refl
  place_texts-suc (i ∷ is) (v ∷ vs) s slots =
      place_texts-suc is vs s (put_at slots i (record { vector = v; phash = none }))

  -- The images of a batch decode.
  abbrev pub Decodable : List EmbedInput → Type 0
  Decodable = All (λ (x : EmbedInput). is_image x.modality ≡ true → Decodes (image_bytes_of x))

  abbrev image_slot : Bool → EmbedInput → Option (EmbeddingResult V)
  image_slot ph x = if is_image x.modality then some (result_of ph x) else none

  module _ (each : IsPointwise) (ph : Bool) where
    abbrev image_vectors : List EmbedInput → List ℕ → List V
    image_vectors xs is = map f (map (bytes_at xs) is)

    abbrev text_vectors : List EmbedInput → List ℕ → List V
    text_vectors xs is = map g (map (text_at xs) is)

    tail-images :
        (x : EmbedInput) (xs : List EmbedInput) (s : Option (EmbeddingResult V))
        → place_images provider ph xs
            (positions true 0 xs)
            (image_vectors xs (positions true 0 xs))
            (empty_slots xs)
          ≡ ok (map (image_slot ph) xs)
        → place_images provider ph
            (x ∷ xs)
            (positions true 1 xs)
            (image_vectors (x ∷ xs) (positions true 1 xs))
            (s ∷ empty_slots xs)
          ≡ ok (s ∷ map (image_slot ph) xs)
    tail-images x xs s ih =
        let is = positions true 0 xs in
        rw (positions-suc true 0 xs) (
          rw (map-bytes_at x xs is) (
            place_images-suc ph x xs is (image_vectors xs is) s (empty_slots xs)
            ∙ ap (behind s) ih))

    tail-texts :
        (x : EmbedInput) (xs : List EmbedInput) (s : Option (EmbeddingResult V)) (slots : Slots)
        → place_texts provider
            (positions false 1 xs)
            (text_vectors (x ∷ xs) (positions false 1 xs))
            (s ∷ slots)
          ≡ s
            ∷ place_texts provider
                (positions false 0 xs)
                (text_vectors xs (positions false 0 xs))
                slots
    tail-texts x xs s slots =
        let is = positions false 0 xs in
        rw (positions-suc false 0 xs)
          (rw (map-text_at x xs is) (place_texts-suc is (text_vectors xs is) s slots))

    hash_for-Decodes :
        (wanted : Bool) (b : List ℕ)
        → Decodes b
        → hash_for provider wanted b ≡ ok (if wanted then some (hash b) else none)
    hash_for-Decodes false b h = refl
    hash_for-Decodes true b h = rw (each.hashes b h, hash_for) refl

    place_images-all :
        (xs : List EmbedInput)
        → Decodable xs
        → place_images provider ph xs
            (positions true 0 xs)
            (image_vectors xs (positions true 0 xs))
            (empty_slots xs)
          ≡ ok (map (image_slot ph) xs)
    place_images-all [] h = refl
    place_images-all (x ∷ xs) h = elim (Bool-cases (is_image x.modality)) [
      | inl e ↦ rw e (
          rw (hash_for-Decodes ph (image_bytes_of x) (h.0 e), place_images)
            (tail-images x xs (some (image_result ph x)) (place_images-all xs h.1)))
      | inr e ↦ rw e (tail-images x xs none (place_images-all xs h.1))
    ]

    place_texts-all :
        (xs : List EmbedInput)
        → place_texts provider
            (positions false 0 xs)
            (text_vectors xs (positions false 0 xs))
            (map (image_slot ph) xs)
          ≡ map (λ x. some (result_of ph x)) xs
    place_texts-all [] = refl
    place_texts-all (x ∷ xs) = elim (Bool-cases (is_image x.modality)) [
      | inl e ↦ rw e (
          tail-texts x xs (some (image_result ph x)) (map (image_slot ph) xs)
          ∙ ap (◌∷◌ (some (image_result ph x))) (place_texts-all xs))
      | inr e ↦ rw e (
          tail-texts x xs (some (text_result x)) (map (image_slot ph) xs)
          ∙ ap (◌∷◌ (some (text_result x))) (place_texts-all xs))
    ]

    positions-Decodable :
        (xs : List EmbedInput)
        → Decodable xs
        → All Decodes (map (bytes_at xs) (positions true 0 xs))
    positions-Decodable [] h = tt
    positions-Decodable (x ∷ xs) h =
        let tail : All Decodes (map (bytes_at (x ∷ xs)) (positions true 1 xs)) =
          rw (positions-suc true 0 xs)
            (rw (map-bytes_at x xs (positions true 0 xs)) (positions-Decodable xs h.1)) in
        elim (Bool-cases (is_image x.modality)) [ inl e ↦ rw e (h.0 e, tail) | inr e ↦ rw e tail ]

    call_images-ok : (bs : List (List ℕ)) → All Decodes bs → call_images provider bs ≡ ok (map f bs)
    call_images-ok [] h = refl
    call_images-ok (b ∷ bs) h = each.images (b ∷ bs) h

    call_texts-ok : (ts : List Text) → call_texts provider ts ≡ ok (map g ts)
    call_texts-ok [] = refl
    call_texts-ok (t ∷ ts) = each.texts (t ∷ ts)

    filled-some :
        (xs : List EmbedInput)
        → filled (map (λ x. some (result_of ph x)) xs) ≡ map (result_of ph) xs
    filled-some [] = refl
    filled-some (x ∷ xs) = ap (◌∷◌ (result_of ph x)) (filled-some xs)

    -- When the provider embeds each image and each text by itself and the images of the batch decode, a
    -- batch that is not empty comes back with one result for each input, in the order of the inputs:
    -- the vector of the image with its hash if one was asked for, or the vector of the text.
    pub generate-InOrder :
        (x : EmbedInput) (xs : List EmbedInput)
        → Decodable (x ∷ xs)
        → generate provider (x ∷ xs) ph
          ≡ ok (record {
            model_version = provider.model_version;
            embedding_dim = provider.embedding_dim;
            results = map (result_of ph) (x ∷ xs);
          })
    unfolding generate
    generate-InOrder x xs h =
        let inputs = x ∷ xs in
        let is = positions true 0 inputs in
        let ts = positions false 0 inputs in
        rw (call_images-ok (map (bytes_at inputs) is) (positions-Decodable inputs h), generate)
          (rw (call_texts-ok (map (text_at inputs) ts), generate)
            (rw (place_images-all inputs h, generate)
              (rw (place_texts-all inputs) (rw (filled-some inputs) refl))))
