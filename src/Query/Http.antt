-- ===== src/Query/Http.antt =====
-- query_service/interface_adapters/controllers and presenters.
use cbir_engine.Base.{
  Bool, List, Option, Result, Text, [], err, if◌then◌else◌, is_blank, length, lift, ltb, none, ok,
  some, ℕ, ℤ, ◌*◌, ◌>>=◌, ◌∷◌,
}
use cbir_engine.Kernel.Floats.{Floats}
use cbir_engine.Kernel.Json.{Dict, Fields, Json, JsonText, end, field, loads, not_json, obj}
use cbir_engine.Query.Ports.{
  Engines, QueryCache, QueryError, RankedResult, SearchParameters, SearchResultsOutput,
  embedding_service, index_error, invalid_query, search_parameters, value_error,
}
use cbir_engine.Query.Search.{Action, Digests, by_image, by_text, composed}

pub record SearchResponse (V : Type 0) : Type 0 where
  pub results : List (RankedResult V)
  pub count : ℕ
  pub cached : Bool
  pub reranked : Bool

-- present_results
unfoldable pub present_results : {V : Type 0} → SearchResultsOutput V → SearchResponse V
present_results out = record {
  results = out.results;
  count = length out.results;
  cached = out.cached;
  reranked = out.reranked;
}

pub data Response (A : Type 0) : Type 0 where
  success : A → Response A
  failure : ℕ → Response A

-- register_error_handlers; an exception with no handler is a 500
unfoldable pub status_for : QueryError → ℕ
status_for value_error = 422
status_for invalid_query = 422
status_for embedding_service = 503
status_for index_error = 500

abbrev dict_of : Fields → Dict
dict_of end = []
dict_of (field k v fs) = (k, v) ∷ dict_of fs

abbrev object_of : Option Json → Result QueryError Dict
object_of (some (obj fs)) = ok (dict_of fs)
object_of _ = err invalid_query

-- _parse_filters; an absent or empty form field is no filter
unfoldable pub parse_filters : Option JsonText → Result QueryError Dict
parse_filters none = ok []
parse_filters (some (not_json [])) = ok []
parse_filters (some raw) = object_of (loads raw)

abbrev pub max_upload_bytes : ℕ
max_upload_bytes = 20 * 1024 * 1024

-- _read_upload
unfoldable pub read_upload : List ℕ → Result QueryError (List ℕ)
read_upload [] = err invalid_query
read_upload (b ∷ bs) =
    if ltb max_upload_bytes (length (b ∷ bs)) then err invalid_query else ok (b ∷ bs)

-- The query fields of a form or of a JSON body.
pub record Knobs (V : Type 0) : Type 0 where
  pub top_k : ℤ
  pub offset : ℤ
  pub min_score : V
  pub filters : Option JsonText
  pub rerank : Bool

module _ (fl : Floats) (hash : Digests) (engines : Engines fl.F) (cache : QueryCache fl.F) where
  abbrev pub respond :
      Result QueryError (SearchResultsOutput fl.F) × cache.State
      → Response (SearchResponse fl.F) × cache.State
  respond (ok out, s) = (success (present_results out), s)
  respond (err e, s) = (failure (status_for e), s)

  abbrev pub params_of : Knobs fl.F → Action fl hash engines cache (SearchParameters fl.F)
  params_of k = do
    filters ← lift (parse_filters k.filters)
    lift (search_parameters fl k.top_k k.offset k.min_score filters)

  -- POST /v1/search/image
  unfoldable pub search_by_image :
      Text → List ℕ → Knobs fl.F → cache.State → Response (SearchResponse fl.F) × cache.State
  search_by_image tenant file k s = respond (
      (do
        image ← lift (read_upload file)
        p ← params_of k
        by_image fl hash engines cache tenant image p k.rerank)
        s)

  -- POST /v1/search/text
  unfoldable pub search_by_text :
      Text → Text → Knobs fl.F → cache.State → Response (SearchResponse fl.F) × cache.State
  search_by_text tenant query k s =
      if is_blank query
      then (failure 422, s)
      else respond ((do p ← params_of k; by_text fl hash engines cache tenant query p k.rerank) s)

  -- POST /v1/search/composed
  unfoldable pub search_composed :
      Text → List ℕ → Text → Knobs fl.F → cache.State → Response (SearchResponse fl.F) × cache.State
  search_composed tenant file modifier k s =
      if is_blank modifier
      then (failure 422, s)
      else respond (
          (do
            image ← lift (read_upload file)
            p ← params_of k
            composed fl hash engines cache tenant image modifier p)
            s)
