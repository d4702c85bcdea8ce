-- ===== src/Ai/Providers.antt =====
-- ai_service/infrastructure/embedding: the local embedder, the shared part of the model adapters, and
-- the factory. Pixels come from the imaging library, SHA-1 from the standard library and the rows of
-- a model from its library; these are parameters.
pub mod Pointwise
use mathlib.Core.List.{reverse}
use cbir_engine.Ai.Embeddings.{AiError, Provider, invalid_image}
use cbir_engine.Ai.Rerank.{cut}
use cbir_engine.Base.{
  List, Option, Result, String, Text, [], drop, err, if◌then◌else◌, is_blank, length, map, none,
  not, ok, or_else, select, some, str_eq, suc, take, zero, ℕ, ◌%◌, ◌*◌, ◌+◌, ◌∷◌,
}
use cbir_engine.Base.Strings.{is_space, lower}
use cbir_engine.Kernel.Floats.{Floats, feq, norm}

-- Every image through `f`, in order; the first failure is the result.
abbrev pub each_image :
    {B : Type 0} → (List ℕ → Result AiError B) → List (List ℕ) → Result AiError (List B)
each_image f [] = ok []
each_image f (b ∷ bs) = elim (f b) [
  | err e ↦ err e
  | ok v ↦ elim (each_image f bs) [ err e ↦ err e | ok vs ↦ ok (v ∷ vs) ]
]

abbrev pub decoded : {B : Type 0} → Option B → Result AiError B
decoded none = err invalid_image
decoded (some b) = ok b

abbrev pub local_embedding_dim : ℕ
local_embedding_dim = 512

-- s.split(): the part that is being read, and the parts after it
abbrev word_parts : Text → Text → List Text
word_parts part [] = reverse part ∷ []
word_parts part (c ∷ s) =
    let cut = word_parts [] s in
    let go = word_parts (c ∷ part) s in if is_space c then reverse part ∷ cut else go

abbrev pub tokens : Text → List Text
tokens s = select (λ t. not (is_blank t)) (word_parts [] (lower s))

-- int.from_bytes(bytes, "big")
abbrev pub big_endian : List ℕ → ℕ → ℕ
big_endian [] acc = acc
big_endian (b ∷ bs) acc = big_endian bs (acc * 256 + b)

module _ (fl : Floats) where
  abbrev pub zeros : ℕ → List fl.F
  zeros zero = []
  zeros (suc n) = fl.zero ∷ zeros n

  -- vector[i] += 1.0
  abbrev pub bump_at : ℕ → List fl.F → List fl.F
  bump_at i [] = []
  bump_at zero (x ∷ xs) = fl.add x fl.one ∷ xs
  bump_at (suc i) (x ∷ xs) = x ∷ bump_at i xs

  abbrev pub first_unit : List fl.F → List fl.F
  first_unit [] = []
  first_unit (x ∷ xs) = fl.one ∷ zeros (length xs)

  -- _l2_normalize
  unfoldable pub l2_normalize : List fl.F → List fl.F
  l2_normalize v =
      let n = norm fl v in if feq fl n fl.zero then first_unit v else map (λ x. fl.div x n) v

  -- A row of _l2_normalize_rows
  unfoldable pub normalize_row : List fl.F → List fl.F
  normalize_row v =
      let n = norm fl v in let d = if feq fl n fl.zero then fl.one else n in map (λ x. fl.div x d) v

  module _ (sha1 : Text → List ℕ) (features : List ℕ → Option (List fl.F))
      (average_hash_of : List ℕ → Option Text) where
    abbrev pub add_token : Text → List fl.F → List fl.F
    add_token token v =
        let digest = sha1 token in
        let idx1 = big_endian (take 4 digest) 0 % local_embedding_dim in
        let idx2 = big_endian (take 4 (drop 4 digest)) 0 % local_embedding_dim in
        bump_at idx2 (bump_at idx1 v)

    abbrev pub add_tokens : List Text → List fl.F → List fl.F
    add_tokens [] v = v
    add_tokens (t ∷ ts) v = add_tokens ts (add_token t v)

    -- LocalDeterministicEmbedder._embed_text
    unfoldable pub embed_text : Text → List fl.F
    embed_text text = l2_normalize (add_tokens (tokens text) (zeros local_embedding_dim))

    -- LocalDeterministicEmbedder._embed_image
    unfoldable pub embed_image : List ℕ → Result AiError (List fl.F)
    embed_image image = elim (decoded (features image)) [
      | err e ↦ err e
      | ok v ↦ ok (l2_normalize v)
    ]

    -- LocalDeterministicEmbedder
    abbrev pub local_provider : Provider (List fl.F)
    local_provider = record {
      model_version = "local-hash-v1";
      embedding_dim = local_embedding_dim;
      embed_images = each_image embed_image;
      embed_texts = λ texts. ok (map embed_text texts);
      perceptual_hash = λ image. decoded (average_hash_of image);
    }

  -- What a subclass of _TorchEmbedder supplies.
  pub record Encoder : Type 1 where
    pub Picture : Type 0
    pub open_rgb : List ℕ → Option Picture
    pub encode_images : List Picture → List (List fl.F)
    pub encode_texts : List Text → Result AiError (List (List fl.F))
    pub hash_of : List ℕ → Option Text
    pub version : String
    pub dim : Option ℕ

  module _ (encoder : Encoder) where
    -- _TorchEmbedder.embed_images
    unfoldable pub torch_images : List (List ℕ) → Result AiError (List (List fl.F))
    torch_images [] = ok []
    torch_images (b ∷ bs) = elim (each_image (λ i. decoded (encoder.open_rgb i)) (b ∷ bs)) [
      | err e ↦ err e
      | ok pictures ↦ ok (map normalize_row (encoder.encode_images pictures))
    ]

    -- _TorchEmbedder.embed_texts
    unfoldable pub torch_texts : List Text → Result AiError (List (List fl.F))
    torch_texts [] = ok []
    torch_texts (t ∷ ts) = elim (encoder.encode_texts (t ∷ ts)) [
      | err e ↦ err e
      | ok rows ↦ ok (map normalize_row rows)
    ]

    -- _TorchEmbedder
    abbrev pub torch_provider : Provider (List fl.F)
    torch_provider = record {
      model_version = encoder.version;
      embedding_dim = or_else encoder.dim 0;
      embed_images = torch_images;
      embed_texts = torch_texts;
      perceptual_hash = λ image. decoded (encoder.hash_of image);
    }

-- The provider that the factory builds, with the checkpoint, the weights and the device that it
-- passes on.
pub data Built : Type 0 where
  local_embedder : Built
  siglip2_embedder : Option Text → Option Text → Built
  openclip_embedder : Option Text → Option Text → Option Text → Built
  dinov2_embedder : Option Text → Option Text → Built

-- `x or None`
abbrev nonblank : Option Text → Option Text
nonblank none = none
nonblank (some s) = if is_blank s then none else some s

-- build_embedding_provider; `none` for the ValueError
unfoldable pub build_embedding_provider :
    String → Option Text → Option Text → Option Text → Option Built
build_embedding_provider name checkpoint pretrained device =
    if str_eq name "local"
    then some local_embedder
    else if str_eq name "siglip2"
    then some (siglip2_embedder (nonblank checkpoint) (nonblank device))
    else if str_eq name "openclip"
    then some (openclip_embedder (nonblank checkpoint) (nonblank pretrained) (nonblank device))
    else if str_eq name "dinov2"
    then some (dinov2_embedder (nonblank checkpoint) (nonblank device))
    else none
