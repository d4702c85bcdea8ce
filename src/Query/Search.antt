-- ===== src/Query/Search.antt =====
-- query_service/application/use_cases/search.py: the three entry points and their shared core.
-- SHA-256 of bytes and of UTF-8 text is a parameter.
pub mod Reranked
pub mod Caching
pub mod Pages
use cbir_engine.Base.{
  Bool, Exec, List, Option, Result, Text, [], codes, drop, err, false, if◌then◌else◌, is_some,
  length, lift, map, modify, none, ok, or_else, pos, pure, select, some, take, text_eq, true, ℕ,
  ◌&&◌, ◌*◌, ◌++◌, ◌+◌, ◌>>=◌, ◌>>◌, ◌||◌, ◌∷◌,
}
use cbir_engine.Kernel.Floats.{Floats}
use cbir_engine.Kernel.Json.{Dict, Fields, Json, boolean, end, field, float, int, obj, str}
use cbir_engine.Query.Ports.{
  Engines, IndexHit, QueryCache, QueryError, RankedResult, SearchParameters, SearchResultsOutput,
}
use cbir_engine.Vectors.Memory.{search}

abbrev pub rerank_candidate_multiplier : ℕ
rerank_candidate_multiplier = 3

abbrev pub result_cache_ttl : ℕ
result_cache_ttl = 300

abbrev pub embed_cache_ttl : ℕ
embed_cache_ttl = 3600

pub record Digests : Type 0 where
  pub sha256 : List ℕ → Text
  pub sha256_text : Text → Text
  pub sha256_json : Json → Text

abbrev pub fields_of : Dict → Fields
fields_of [] = end
fields_of ((k, v) ∷ d) = field k v (fields_of d)

module _ (fl : Floats) (hash : Digests) (engines : Engines fl.F) (cache : QueryCache fl.F) where
  abbrev pub Params : Type 0
  Params = SearchParameters fl.F

  abbrev pub Action : Type 0 → Type 0
  Action A = Exec cache.State QueryError A

  -- The object that `_result_key` dumps with sorted keys.
  unfoldable pub key_object : Text → Text → Text → Params → Bool → Json
  key_object tenant version seed p reranked = obj (
      field "f" (obj (fields_of p.filters)) (
        field "k" (int (pos p.top_k)) (
          field "m" (float (fl.show p.min_score)) (
            field "o" (int (pos p.offset)) (
              field "r" (boolean reranked) (
                field "seed" (str seed) (field "t" (str tenant) (field "v" (str version) end))))))))

  unfoldable pub result_key : Text → Text → Params → Bool → cache.State → Text
  result_key tenant seed p reranked s =
      codes "qs:results:"
      ++ hash.sha256_json (key_object tenant (cache.index_version tenant s) seed p reranked)

  abbrev pub embed_from :
      Text → Option (List fl.F) → Result QueryError (List fl.F) → Action (List fl.F)
  embed_from key (some v) embed s = (ok v, s)
  embed_from key none (ok v) s = (ok v, cache.set_embedding key v embed_cache_ttl s)
  embed_from key none (err e) s = (err e, s)

  abbrev pub cached_embed : Text → Result QueryError (List fl.F) → Action (List fl.F)
  cached_embed key embed s = embed_from key (cache.get_embedding key s) embed s

  unfoldable pub cached_image_embed : List ℕ → Action (List fl.F)
  cached_image_embed image =
      cached_embed (codes "emb:img:" ++ hash.sha256 image) (engines.embed_image image)

  unfoldable pub cached_text_embed : Text → Action (List fl.F)
  cached_text_embed text =
      cached_embed (codes "emb:txt:" ++ hash.sha256_text text) (engines.embed_text text)

  -- by_id = {h.item_id: h for h in hits}: the last hit with an id stands
  abbrev pub by_id : Text → List (IndexHit fl.F) → Option (IndexHit fl.F)
  by_id id [] = none
  by_id id (h ∷ hs) = elim (by_id id hs) [
    | some x ↦ some x
    | none ↦ if text_eq h.item_id id then some h else none
  ]

  abbrev pub reorder : List (IndexHit fl.F) → List (Text × fl.F) → List (IndexHit fl.F)
  reorder hits [] = []
  reorder hits ((id, score) ∷ order) =
      let rest = reorder hits order in
      elim (by_id id hits) [
        | some h ↦
            record { item_id = h.item_id; score = score; payload = h.payload; vector = none } ∷ rest
        | none ↦ rest
      ]

  abbrev pub candidates : List (IndexHit fl.F) → List (Text × List fl.F)
  candidates = map (λ (h : IndexHit fl.F). (h.item_id, or_else h.vector []))

  -- _apply_rerank, which `_run` calls on hits that are not empty; no hits stay as they are
  unfoldable pub apply_rerank :
      List fl.F
      → Option (List fl.F)
      → List (IndexHit fl.F)
      → Result QueryError (List (IndexHit fl.F))
  apply_rerank query modifier [] = ok []
  apply_rerank query modifier (h ∷ hs) = elim engines.rerank [
    | none ↦ ok (h ∷ hs)
    | some rerank ↦ elim (rerank query (candidates (h ∷ hs)) modifier (length (h ∷ hs))) [
      | ok order ↦ ok (reorder (h ∷ hs) order)
      | err e ↦ err e
    ]
  ]

  abbrev pub rank_hit : IndexHit fl.F → RankedResult fl.F
  rank_hit h = record { item_id = h.item_id; score = fl.round_6 h.score; payload = h.payload }

  abbrev pub ranked : Params → List (IndexHit fl.F) → List (RankedResult fl.F)
  ranked p hits = map rank_hit (select (λ (h : IndexHit fl.F). fl.le p.min_score h.score) hits)

  -- ranked[offset : offset + top_k]
  unfoldable pub page_of : Params → List (IndexHit fl.F) → List (RankedResult fl.F)
  page_of p hits = take p.top_k (drop p.offset (ranked p hits))

  abbrev pub fetch_size : Params → Bool → ℕ
  fetch_size p will_rerank =
      if will_rerank then (p.top_k + p.offset) * rerank_candidate_multiplier else p.top_k + p.offset

  abbrev pub opt_filters : Dict → Option Dict
  opt_filters [] = none
  opt_filters (f ∷ fs) = some (f ∷ fs)

  -- The part of `_run` after a miss.
  unfoldable pub run_uncached :
      Text
      → Text
      → Action (List fl.F)
      → Params
      → Bool
      → Option (List fl.F)
      → Action (SearchResultsOutput fl.F)
  run_uncached tenant key embed p will_rerank modifier = do
    query ← embed
    hits ←
        lift (
          engines.search tenant query (fetch_size p will_rerank) (opt_filters p.filters)
            will_rerank)
    hits' ← lift (if will_rerank then apply_rerank query modifier hits else ok hits)
    modify (λ s. cache.set_results key (page_of p hits') result_cache_ttl s)
    pure (record { results = page_of p hits'; cached = false; reranked = will_rerank })

  abbrev pub reranks : Bool → Option (List fl.F) → Bool
  reranks rerank modifier = is_some engines.rerank && (rerank || is_some modifier)

  -- The results of the cache, or those of the search.
  abbrev pub run_from :
      Bool
      → Option (List (RankedResult fl.F))
      → Action (SearchResultsOutput fl.F)
      → Action (SearchResultsOutput fl.F)
  run_from will_rerank (some rs) search s =
      (ok (record { results = rs; cached = true; reranked = will_rerank }), s)
  run_from will_rerank none search s = search s

  -- SearchService._run
  unfoldable pub run :
      Text
      → Text
      → Action (List fl.F)
      → Params
      → Bool
      → Option (List fl.F)
      → Action (SearchResultsOutput fl.F)
  run tenant seed embed p rerank modifier s =
      let will_rerank = reranks rerank modifier in
      let key = result_key tenant seed p will_rerank s in
      run_from will_rerank (cache.get_results key s)
        (run_uncached tenant key embed p will_rerank modifier) s

  unfoldable pub by_image : Text → List ℕ → Params → Bool → Action (SearchResultsOutput fl.F)
  by_image tenant image p rerank =
      run tenant (codes "img:" ++ hash.sha256 image) (cached_image_embed image) p rerank none

  unfoldable pub by_text : Text → Text → Params → Bool → Action (SearchResultsOutput fl.F)
  by_text tenant text p rerank =
      run tenant (codes "txt:" ++ hash.sha256_text text) (cached_text_embed text) p rerank none

  unfoldable pub composed : Text → List ℕ → Text → Params → Action (SearchResultsOutput fl.F)
  composed tenant image modifier p = do
    v ← cached_text_embed modifier
    run tenant (codes "cmp:" ++ (hash.sha256 image ++ (58 ∷ hash.sha256_text modifier)))
        (cached_image_embed image) p true (some v)
