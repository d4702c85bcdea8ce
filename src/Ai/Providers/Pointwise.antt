-- ===== src/Ai/Providers/Pointwise.antt =====
-- LocalDeterministicEmbedder (ai_service/infrastructure/embedding): its vectors, one by one.
use cbir_engine.Ai.Embeddings.Order.{IsPointwise}
use cbir_engine.Ai.Providers.{
  add_tokens, bump_at, each_image, embed_image, embed_text, first_unit, l2_normalize,
  local_embedding_dim, local_provider, tokens, zeros,
}
use cbir_engine.Base.{
  All, Bool-cases, List, Option, Text, [], ap, inl, inr, length, map, ok, or_else, refl, some, suc,
  zero, ℕ, ◌∙◌, ◌∷◌, ◌≡◌,
}
use cbir_engine.Kernel.Floats.{Floats, feq, norm}

module _ (fl : Floats) (sha1 : Text → List ℕ) (features : List ℕ → Option (List fl.F))
    (average_hash_of : List ℕ → Option Text) where
  -- The image is one that the imaging library reads.
  abbrev pub IsReadable : List ℕ → Type 0
  IsReadable b =
      ((v : List fl.F) × (features b ≡ some v)) × ((h : Text) × (average_hash_of b ≡ some h))

  abbrev pub image_vector : List ℕ → List fl.F
  image_vector b = l2_normalize fl (or_else (features b) [])

  embed_image-Readable :
      (b : List ℕ)
      → IsReadable b
      → embed_image fl sha1 features average_hash_of b ≡ ok (image_vector b)
  unfolding embed_image
  embed_image-Readable b h = rw (h.0.1, embed_image) refl

  embed_images-Readable :
      (bs : List (List ℕ))
      → All IsReadable bs
      → each_image (embed_image fl sha1 features average_hash_of) bs ≡ ok (map image_vector bs)
  embed_images-Readable [] h = refl
  embed_images-Readable (b ∷ bs) h =
      rw (embed_image-Readable b h.0, each_image)
        (rw (embed_images-Readable bs h.1, each_image) refl)

  -- The local embedder treats every input by itself.
  pub local_provider-IsPointwise :
      IsPointwise
        (local_provider fl sha1 features average_hash_of)
        IsReadable
        image_vector
        (embed_text fl sha1 features average_hash_of)
        (λ b. or_else (average_hash_of b) [])
  local_provider-IsPointwise = record {
    images = embed_images-Readable;
    texts = λ ts. refl;
    hashes = λ b h. rw h.1.1 refl;
  }

  length-map : {A B : Type 0} (f : A → B) (xs : List A) → length (map f xs) ≡ length xs
  length-map f [] = refl
  length-map f (x ∷ xs) = ap suc (length-map f xs)

  length-bump_at : (i : ℕ) (v : List fl.F) → length (bump_at fl i v) ≡ length v
  length-bump_at i [] = refl
  length-bump_at zero (x ∷ xs) = refl
  length-bump_at (suc i) (x ∷ xs) = ap suc (length-bump_at i xs)

  length-zeros : (n : ℕ) → length (zeros fl n) ≡ n
  length-zeros zero = refl
  length-zeros (suc n) = ap suc (length-zeros n)

  length-add_tokens :
      (ts : List Text) (v : List fl.F)
      → length (add_tokens fl sha1 features average_hash_of ts v) ≡ length v
  length-add_tokens [] v = refl
  length-add_tokens (t ∷ ts) v =
      length-add_tokens ts _ ∙ length-bump_at _ (bump_at fl _ v) ∙ length-bump_at _ v

  length-first_unit : (v : List fl.F) → length (first_unit fl v) ≡ length v
  length-first_unit [] = refl
  length-first_unit (x ∷ xs) = ap suc (length-zeros (length xs))

  length-l2_normalize : (v : List fl.F) → length (l2_normalize fl v) ≡ length v
  unfolding l2_normalize
  length-l2_normalize v = elim (Bool-cases (feq fl (norm fl v) fl.zero)) [
    | inl e ↦ rw e (length-first_unit v)
    | inr e ↦ rw e (length-map _ v)
  ]

  -- Every text has a vector of the advertised dimension.
  length-embed_text :
      (t : Text) → length (embed_text fl sha1 features average_hash_of t) ≡ local_embedding_dim
  unfolding embed_text
  length-embed_text t =
      length-l2_normalize _ ∙ length-add_tokens (tokens t) _ ∙ length-zeros local_embedding_dim
