-- ===== src/Query/Ports.antt =====
-- query_service/domain and application/ports: the validated parameters, and the ports that the
-- search depends on.
pub mod Validation
use cbir_engine.Base.{
  Bool, List, Option, Result, Text, codes, err, if◌then◌else◌, leb_ℤ, ltb_ℤ, none, not, ok, pos,
  pos_part, ℕ, ℤ, ◌&&◌,
}
use cbir_engine.Kernel.Floats.{Floats}
use cbir_engine.Kernel.Json.{Dict}

pub data QueryError : Type 0 where
  value_error : QueryError
  invalid_query : QueryError
  embedding_service : QueryError
  index_error : QueryError

-- What the caller asks for, and the parameters that `__post_init__` accepts.
pub record SearchParameters (V : Type 0) : Type 0 where
  pub top_k : ℕ
  pub offset : ℕ
  pub min_score : V
  pub filters : Dict

abbrev pub max_top_k : ℕ
max_top_k = 100

-- SearchParameters(top_k, offset, min_score, filters)
unfoldable pub search_parameters :
    (fl : Floats) → ℤ → ℤ → fl.F → Dict → Result QueryError (SearchParameters fl.F)
search_parameters fl top_k offset min_score filters =
    if not (leb_ℤ (pos 1) top_k && leb_ℤ top_k (pos max_top_k))
    then err value_error
    else if ltb_ℤ offset (pos 0)
    then err value_error
    else if not (fl.le fl.zero min_score && fl.le min_score fl.one)
    then err value_error
    else ok (record {
      top_k = pos_part top_k;
      offset = pos_part offset;
      min_score = min_score;
      filters = filters;
    })

pub record RankedResult (V : Type 0) : Type 0 where
  pub item_id : Text
  pub score : V
  pub payload : Dict

pub record IndexHit (V : Type 0) : Type 0 where
  pub item_id : Text
  pub score : V
  pub payload : Dict
  pub vector : Option (List V)

pub record SearchResultsOutput (V : Type 0) : Type 0 where
  pub results : List (RankedResult V)
  pub cached : Bool
  pub reranked : Bool

-- QueryEmbedderPort, SearchIndexPort and RerankerPort.
pub record Engines (V : Type 0) : Type 0 where
  pub embed_image : List ℕ → Result QueryError (List V)
  pub embed_text : Text → Result QueryError (List V)
  pub search : Text → List V → ℕ → Option Dict → Bool → Result QueryError (List (IndexHit V))
  pub rerank :
      Option
        (List V → List (Text × List V) → Option (List V) → ℕ → Result QueryError (List (Text × V)))

-- QueryCachePort. A lookup that fails is a miss, and a write that fails changes nothing.
pub record QueryCache (V : Type 0) : Type 1 where
  pub State : Type 0
  pub index_version : Text → State → Text
  pub get_results : Text → State → Option (List (RankedResult V))
  pub set_results : Text → List (RankedResult V) → ℕ → State → State
  pub get_embedding : Text → State → Option (List V)
  pub set_embedding : Text → List V → ℕ → State → State

-- NullQueryCache
unfoldable pub null_cache : (V : Type 0) → QueryCache V
null_cache V = record {
  State = Unit {0};
  index_version = λ t s. codes "0";
  get_results = λ k s. none;
  set_results = λ k rs ttl s. s;
  get_embedding = λ k s. none;
  set_embedding = λ k v ttl s. s;
}
