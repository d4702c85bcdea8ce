-- ===== src/Query/Clients.antt =====
-- query_service/infrastructure/clients: the embedder and the reranker over ai-service, and the
-- search index over the shared vector store.
use cbir_engine.Base.{
  Bool, List, Option, Result, Text, [], err, false, if◌then◌else◌, map, none, ok, or_else, select,
  some, true, ℕ, ◌==◌, ◌∷◌,
}
use cbir_engine.Kernel.Floats.{Floats}
use cbir_engine.Kernel.Json.{Dict}
use cbir_engine.Query.Ports.{IndexHit, QueryError, embedding_service, index_error, invalid_query}
use cbir_engine.Query.Search.{candidates}
use cbir_engine.Vectors.Port.{SearchHit, VectorStore}

-- An HTTP response of ai-service, or a transport error.
pub data Reply (A : Type 0) : Type 0 where
  transport_error : Reply A
  answered : A → Reply A
  refused : ℕ → Reply A

-- AiServiceQueryEmbedder._embed_one
unfoldable pub embed_one : {V : Type 0} → Reply (List V) → Result QueryError (List V)
embed_one transport_error = err embedding_service
embed_one (answered v) = ok v
embed_one (refused status) = if status == 422 then err invalid_query else err embedding_service

abbrev pub index_hit : {V : Type 0} → SearchHit V → IndexHit V
index_hit h = record { item_id = h.id; score = h.score; payload = h.payload; vector = h.vector }

-- VectorStoreSearchIndex.search, in a state of the vector store
unfoldable pub store_search :
    {V : Type 0} (s : VectorStore V)
    → s.State
    → Text
    → List V
    → ℕ
    → Option Dict
    → Bool
    → Result QueryError (List (IndexHit V))
store_search s w tenant vector limit filters with_vectors =
    elim (s.search tenant vector limit (or_else filters []) with_vectors w) [
      | some hits ↦ ok (map index_hit hits)
      | none ↦ err index_error
    ]

abbrev pub has_items : {A : Type 0} → List A → Bool
has_items [] = false
has_items (x ∷ xs) = true

-- The candidates of the request: those that have a vector.
abbrev pub with_vector : {V : Type 0} → List (Text × List V) → List (Text × List V)
with_vector {V} = select (λ (c : Text × List V). has_items c.1)

-- AiServiceReranker.rerank, over the post of the request
unfoldable pub rerank_request :
    (fl : Floats)
    → (List fl.F → List (Text × List fl.F) → Option (List fl.F) → ℕ → Reply (List (Text × fl.F)))
    → List fl.F
    → List (Text × List fl.F)
    → Option (List fl.F)
    → ℕ
    → Result QueryError (List (Text × fl.F))
rerank_request fl post query candidates modifier top_k =
    if has_items (with_vector candidates)
    then elim (post query (with_vector candidates) modifier top_k) [
      | answered items ↦ ok items
      | transport_error ↦ err embedding_service
      | refused status ↦ err embedding_service
    ]
    else ok (map (λ (c : Text × List fl.F). (c.0, fl.zero)) candidates)
