-- ===== src/Ai/Witnesses.antt =====
-- A concrete shortlist, and a batch for the local embedder.
use cbir_engine.Ai.Embeddings.{EmbedInput, EmbeddingResult, Provider, generate, image, text}
use cbir_engine.Ai.Embeddings.Order.{generate-InOrder, result_of}
use cbir_engine.Ai.Providers.{embed_text, local_provider}
use cbir_engine.Ai.Providers.Pointwise.{IsReadable, image_vector, local_provider-IsPointwise}
use cbir_engine.Ai.Rerank.{RerankInput, rerank_shortlist}
use cbir_engine.Ai.Rerank.Shortlist.{IsShortlist, rerank_shortlist-IsShortlist}
use cbir_engine.Base.{List, Option, Text, [], codes, none, ok, refl, some, true, ℕ, ◌∷◌, ◌≡◌}
use cbir_engine.Kernel.Witnesses.{counting, counting-Ordered}

abbrev shortlist : RerankInput ℕ
shortlist = record {
  query_vector = 2 ∷ [];
  candidates =
      record { id = codes "a"; vector = 1 ∷ [] } ∷ record { id = codes "b"; vector = 4 ∷ [] } ∷ [];
  modifier_vector = none;
  modifier_weight = 0;
  top_k = some 1;
}

rerank_shortlist-IsShortlist_example :
    IsShortlist counting shortlist (rerank_shortlist counting shortlist)
rerank_shortlist-IsShortlist_example =
    rerank_shortlist-IsShortlist counting counting-Ordered shortlist

abbrev digest : Text → List ℕ
digest token = 1 ∷ []

abbrev as_bytes : List ℕ → Option (List ℕ)
as_bytes bytes = some bytes

abbrev local : Provider (List ℕ)
local = local_provider counting digest as_bytes as_bytes

abbrev text_input : EmbedInput
text_input = record { modality = text; image_bytes = none; content = some (codes "red car") }

abbrev image_input : EmbedInput
image_input = record { modality = image; image_bytes = some (3 ∷ 4 ∷ []); content = none }

abbrev local_result : EmbedInput → EmbeddingResult (List ℕ)
local_result =
    result_of local (IsReadable counting digest as_bytes as_bytes)
      (image_vector counting digest as_bytes as_bytes)
      (embed_text counting digest as_bytes as_bytes) (λ bytes. bytes) true

generate-InOrder_example :
    generate local (text_input ∷ image_input ∷ []) true
    ≡ ok (record {
      model_version = "local-hash-v1";
      embedding_dim = 512;
      results = local_result text_input ∷ local_result image_input ∷ [];
    })
generate-InOrder_example =
    generate-InOrder local (IsReadable counting digest as_bytes as_bytes)
      (image_vector counting digest as_bytes as_bytes)
      (embed_text counting digest as_bytes as_bytes) (λ bytes. bytes)
      (local_provider-IsPointwise counting digest as_bytes as_bytes) true text_input
      (image_input ∷ []) ((λ e. (([], refl), ([], refl))), ((λ e. ((_, refl), (_, refl))), tt))
